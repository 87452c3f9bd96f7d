-- ===== src/Daemon/Uploader/Requests.antt =====
-- What the upload loop of crates/daemon/src/pvoutput_uploader.rs posts, against the form that the API
-- asks for.
use Prim.Native.String.{String}
use Prim.Native.String.append
use text.Mathlib.TextLemmas.{append-nil as text_append_nil, append_assoc as text_append_assoc}
use hass_sma_rs.Prelude
use hass_sma_rs.Prelude.{
  ℕ, ◌+◌, ◌%◌, ◌^◌, ◌≡◌, refl, sym, ap, ◌∙◌, List, [], ◌∷◌, ◌++◌, append_assoc, append-nil, Bool,
  Bool-cases, inl, inr, true, false, Option, none, some, if◌then◌else◌, arith,
}
use hass_sma_rs.Prelude.Texts.{◌<>◌, decimal}
use hass_sma_rs.Daemon.Config.{InverterCfg}
use hass_sma_rs.Daemon.Pvoutput.{
  PvoutputSystem, PvoutputCfg, Texts, Observed, observed_status, urlencode, build_status_body,
  collect_status,
}
use hass_sma_rs.Daemon.Uploader.{
  UploaderTask, uploader_task, Request, Http, endpoint, request_for, upload_each, upload_loop,
}

module _ {D F H : Type 0} (texts : Texts D F) (is_positive : F → Bool) (http : Http H) where
  -- A client that keeps what it was asked to post.
  pub record Posts (log : H → List Request) : Type 0 where
    pub on_post : (h : H) (r : Request) → log (http.post h r).1 ≡ log h ++ r ∷ []

  empty_left : (t : String) → "" <> t ≡ t
  empty_left t = append.nil t

  -- The form of the API, `d=YYYYMMDD&t=HH%3AMM&v1=N&v2=N[&v5=N][&v6=N]`: the energy in 32 bits, and
  -- temperature and voltage if they are positive.
  abbrev optional_field : String → F → String
  optional_field name x = if is_positive x then "&" <> name <> texts.one_place x else ""

  abbrev pub form_of : D → Observed F → String
  form_of now o =
      "d="
      <> texts.day_of now
      <> "&"
      <> "t="
      <> urlencode (texts.time_of now)
      <> "&"
      <> "v1="
      <> decimal (o.energy % 2 ^ 32)
      <> "&"
      <> "v2="
      <> decimal o.power
      <> optional_field "v5=" o.temp
      <> optional_field "v6=" o.voltage

  -- One request for each tick that has seen power or energy, with the key and the number of the
  -- configuration.
  unfoldable pub requests_of : PvoutputCfg → PvoutputSystem → List (D × Observed F) → List Request
  requests_of pv sys [] = []
  requests_of pv sys ((now, o) ∷ rest) =
      let later = requests_of pv sys rest in
      if Prelude.◌==◌ (o.power + o.energy) 0
      then later
      else record {
        url = "https://pvoutput.org/service/r2/addstatus.jsp";
        api_key = pv.api_key;
        system_id = sys.system_id;
        body = form_of now o;
      }
        ∷ later

  body-form_of :
      (now : D) (o : Observed F)
      → build_status_body texts (observed_status is_positive now o) ≡ form_of now o
  unfolding build_status_body
  body-form_of now o = elim (Bool-cases (is_positive o.temp)) [
    | inl warm ↦ elim (Bool-cases (is_positive o.voltage)) [
      | inl live ↦ rw (warm, live) (simp text_append_assoc)
      | inr dark ↦ rw (warm, dark) (simp (text_append_assoc, text_append_nil))
    ]
    | inr cold ↦ elim (Bool-cases (is_positive o.voltage)) [
      | inl live ↦ rw (cold, live) (simp (text_append_assoc, empty_left))
      | inr dark ↦ rw (cold, dark) (simp (text_append_assoc, empty_left, text_append_nil))
    ]
  ]

  module _ (log : H → List Request) (posts : Posts log) (inverters : List InverterCfg)
      (pv : PvoutputCfg) (sys : PvoutputSystem) where
    abbrev task_of : UploaderTask
    task_of = uploader_task inverters pv sys

    upload_each-requests :
        (ticks : List (D × Observed F)) (h : H)
        → log (upload_each texts is_positive http task_of ticks h)
          ≡ log h ++ requests_of pv sys ticks
    unfolding upload_each requests_of
    upload_each-requests [] h = sym (append-nil (log h))
    upload_each-requests ((now, o) ∷ rest) h =
        let ih = λ (h' : H). upload_each-requests rest h' in
        elim (Bool-cases (Prelude.◌==◌ (o.power + o.energy) 0)) [
          | inl idle ↦
              let none_yet : collect_status is_positive now o ≡ none = unseen now o idle in
              rw (none_yet, idle) (ih h)
          | inr busy ↦
              let taken : collect_status is_positive now o
                  ≡ some (observed_status is_positive now o) =
                seen now o busy in
              rw (taken, busy)
                (ih
                    (http.post h (
                      request_for texts is_positive http task_of
                        (observed_status is_positive now o))).1
                  ∙ ap (λ (l : List Request). l ++ requests_of pv sys rest)
                      (posts.on_post h (
                        request_for texts is_positive http task_of
                          (observed_status is_positive now o)))
                  ∙ append_assoc (log h) _ (requests_of pv sys rest)
                  ∙ ap (λ (r : Request). log h ++ r ∷ requests_of pv sys rest) (written now o))
        ]
      where
        unseen :
            (now : D) (o : Observed F)
            → (Prelude.◌==◌ (o.power + o.energy) 0) ≡ true
            → collect_status is_positive now o ≡ none
        unseen now o idle = unfold collect_status in ground (arith, idle)

        seen :
            (now : D) (o : Observed F)
            → (Prelude.◌==◌ (o.power + o.energy) 0) ≡ false
            → collect_status is_positive now o ≡ some (observed_status is_positive now o)
        seen now o busy = unfold collect_status in ground (arith, busy)

        written :
            (now : D) (o : Observed F)
            → request_for texts is_positive http task_of (observed_status is_positive now o)
              ≡ record {
                url = "https://pvoutput.org/service/r2/addstatus.jsp";
                api_key = pv.api_key;
                system_id = sys.system_id;
                body = form_of now o;
              }
        written now o =
            unfold request_for in unfold uploader_task in ap with_body (body-form_of now o)
          where
            with_body : String → Request
            with_body b = record {
              url = endpoint;
              api_key = pv.api_key;
              system_id = sys.system_id;
              body = b;
            }

    -- Whatever the server answers, the loop for a system of the configuration posts one request, in
    -- order, for each of its ticks behind the first that has seen power or energy, and nothing else:
    -- to the address of the service, with the key and the number of the system, and a form of the
    -- day, the time, the energy in 32 bits and the power, and of temperature and voltage if they are
    -- positive.
    pub upload_loop-requests :
        (first : D × Observed F) (ticks : List (D × Observed F)) (h : H)
        → log (upload_loop texts is_positive http true task_of (first ∷ ticks) h)
          ≡ log h ++ requests_of pv sys ticks
    unfolding upload_loop
    upload_loop-requests first ticks h = upload_each-requests ticks h
