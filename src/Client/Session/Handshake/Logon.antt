-- ===== src/Client/Session/Handshake/Logon.antt =====
-- Which replies end the wait for the logon.
use hass_sma_rs.Prelude.{
  ℕ, zero, suc, ◌≡◌, List, Option, none, some, ◌==◌, ==_iff, Result, ok, err, arith,
}
use hass_sma_rs.Transport.Interface.{Transport}
use hass_sma_rs.Client.Errors.{SessionError}
use hass_sma_rs.Client.Session.{L2Reply, Method}
use hass_sma_rs.Client.Session.Replies.{
  OkHas, Yields, ret-Yields, bind-Yields, bind_with-Yields, if-Yields,
}
use hass_sma_rs.Client.Session.Handshake.{
  LogonReplies, logon_outcome, reply_to, logon_reply, logon_received, logon_loop, await_logon,
}

-- What an optional reply has, if it is there.
pub SomeHas : (L2Reply → Type 0) → Option L2Reply → Type 0
SomeHas P none = Unit
SomeHas P (some reply) = P reply

pub IsSuccess : L2Reply → Type 0
IsSuccess reply = reply.error_code ≡ 0

-- The accepted reply, if there is one, reports success.
abbrev IsTrue : LogonReplies → Type 0
IsTrue replies = SomeHas IsSuccess replies.accepted

module _ {T : Type 0} (again : Option L2Reply → Method T LogonReplies)
    (later : (last : Option L2Reply) → Yields IsTrue (again last)) where
  logon_reply-IsTrue : (last o : Option L2Reply) → Yields IsTrue (logon_reply again last o)
  unfolding logon_reply SomeHas IsSuccess
  logon_reply-IsTrue last none = later last
  logon_reply-IsTrue last (some reply) =
      if-Yields _ (reply.error_code == 0) _ _
        (λ success. ret-Yields _ _ ((==_iff reply.error_code 0).0 success)) (later (some reply))

  logon_received-IsTrue :
      (id : ℕ) (last : Option L2Reply) (r : Result SessionError (List ℕ))
      → Yields IsTrue (logon_received again id last r)
  unfolding logon_received SomeHas
  logon_received-IsTrue id last (err e) = ret-Yields _ _ tt
  logon_received-IsTrue id last (ok bytes) = logon_reply-IsTrue last (reply_to id bytes)

outcome-IsSuccess :
    (replies : LogonReplies) → IsTrue replies → OkHas IsSuccess (logon_outcome replies)
unfolding OkHas logon_outcome SomeHas
outcome-IsSuccess replies h = ground arith

module _ {T : Type 0} (net : Transport T) where
  logon_loop-IsTrue : (n id : ℕ) (last : Option L2Reply) → Yields IsTrue (logon_loop net n id last)
  unfolding logon_loop SomeHas
  logon_loop-IsTrue zero id last = ret-Yields _ _ tt
  logon_loop-IsTrue (suc n) id last =
      bind-Yields _ _ (logon_received-IsTrue _ (logon_loop-IsTrue n id) id last) _

  -- A logon that is accepted was answered with the error code 0, over any transport.
  pub await_logon-IsSuccess : (id : ℕ) → Yields IsSuccess (await_logon net id)
  unfolding await_logon
  await_logon-IsSuccess id =
      bind_with-Yields _ IsTrue _ _ (logon_loop-IsTrue 16 id none)
        (λ replies h. record { at = λ s. outcome-IsSuccess replies h })
