-- ===== src/Client/Session/Replies.antt =====
-- What the receive loops hand to their callers, over any transport.
use hass_sma_rs.Prelude.{
  ℕ, ◌≡◌, refl, List, some, Bool, true, false, if◌then◌else◌, Result, ok, err,
}
use hass_sma_rs.Protocol.Frame.{Frame, FrameKind, l1_only, l2_wrapped, parse}
use hass_sma_rs.Protocol.Packet.{L2Header, decode_l2}
use hass_sma_rs.Client.Errors.{SessionError}
use hass_sma_rs.Client.Session.{L2Reply, Session, Method, ret, fail, ◌>>=◌, proceed}
use hass_sma_rs.Client.Session.Receive.{reply_of, reply_in_kind}

-- A value, if there is one, has the property.
unfoldable pub OkHas : {A : Type 0} → (A → Type 0) → Result SessionError A → Type 0
OkHas P (ok a) = P a
OkHas P (err e) = Unit

-- Whatever a method returns has the property.
pub record Yields {T A : Type 0} (P : A → Type 0) (m : Method T A) : Type 0 where
  pub at : (s : Session T) → OkHas P (m s).0

module _ {T A : Type 0} (P : A → Type 0) where
  pub ret-Yields : (a : A) → P a → Yields P (ret {T = T} a)
  unfolding OkHas
  ret-Yields a h = record { at = λ s. h }

  pub fail-Yields : (e : SessionError) → Yields P (fail {T = T} e)
  unfolding OkHas
  fail-Yields e = record { at = λ s. tt }

  module _ {B : Type 0} (f : B → Method T A) (h : (b : B) → Yields P (f b)) where
    proceed-OkHas : (r : Result SessionError B) (s : Session T) → OkHas P (proceed f r s).0
    unfolding OkHas
    proceed-OkHas (ok b) s = (h b).at s
    proceed-OkHas (err e) s = tt

    pub bind-Yields : (m : Method T B) → Yields P (m >>= f)
    unfolding ◌>>=◌
    bind-Yields m = record { at = λ s. proceed-OkHas (m s).0 (m s).1 }

  -- The same, when the rest needs what the first method's value has.
  module _ {B : Type 0} (Q : B → Type 0) (f : B → Method T A) where
    proceed_with-OkHas :
        (r : Result SessionError B) (s : Session T)
        → OkHas Q r
        → ((b : B) → Q b → Yields P (f b))
        → OkHas P (proceed f r s).0
    unfolding OkHas
    proceed_with-OkHas (ok b) s q h = (h b q).at s
    proceed_with-OkHas (err e) s q h = tt

    pub bind_with-Yields :
        (m : Method T B) → Yields Q m → ((b : B) → Q b → Yields P (f b)) → Yields P (m >>= f)
    unfolding ◌>>=◌
    bind_with-Yields m q h = record { at = λ s. proceed_with-OkHas (m s).0 (m s).1 (q.at s) h }

  pub if-Yields :
      (b : Bool) (m n : Method T A)
      → (b ≡ true → Yields P m)
      → Yields P n
      → Yields P (if b then m else n)
  if-Yields true m n hm hn = hm refl
  if-Yields false m n hm hn = hn

-- A frame on the wire is the reply: it parses as an L2 frame, its payload decodes, and the packet
-- id is the one that was asked for.
pub record IsReply (want : ℕ) (bytes : List ℕ) (reply : L2Reply) : Type 0 where
  pub frame : Frame
  pub header : L2Header
  pub parses : parse bytes ≡ ok frame
  pub is_l2 : frame.kind ≡ l2_wrapped
  pub decodes : decode_l2 frame.payload ≡ some (header, reply.body)
  pub is_wanted : header.pkt_id ≡ want
  pub copies : reply ≡ reply_of header reply.body

pub reply_in_kind-decodes :
    (kind : FrameKind) (payload : List ℕ) (got : L2Header × List ℕ)
    → reply_in_kind kind payload ≡ some got
    → (kind ≡ l2_wrapped) × (decode_l2 payload ≡ some got)
unfolding reply_in_kind
reply_in_kind-decodes l1_only payload got h = absurd (cc h)
reply_in_kind-decodes l2_wrapped payload got h = (refl, h)
