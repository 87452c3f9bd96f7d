-- ===== src/Tests/Sessions.antt =====
-- The session on a scripted transport.
use hass_sma_rs.Prelude.{
  ℕ, zero, suc, ◌≡◌, ◌≢◌, refl, List, [], ◌∷◌, ◌++◌, replicate, ok, err, arith, All,
}
use hass_sma_rs.Protocol.Frame.{parse}
use hass_sma_rs.Protocol.Stuffing.{too_short}
use hass_sma_rs.Protocol.Commands.{spot_ac_total_power}
use hass_sma_rs.Transport.Mock.{MockTransport, mock_transport}
use hass_sma_rs.Client.Session.{Session}
use hass_sma_rs.Client.Session.Replies.{Yields}
use hass_sma_rs.Client.Session.Handshake.{handshake_and_logon, await_logon}
use hass_sma_rs.Client.Session.Handshake.Outcome.{IsSettled, handshake_and_logon-IsSettled}
use hass_sma_rs.Client.Session.Handshake.Logon.{IsSuccess, await_logon-IsSuccess}
use hass_sma_rs.Client.Session.Query.{query_for_device}
use hass_sma_rs.Client.Session.Query.Identifiers.{
  Answers, query_for_device-Answers, query_for_device-dead,
}
use hass_sma_rs.Client.Session.Query.Answers.{
  on_mock, IsUnrelated, answered, query_for_device-answered,
}
use hass_sma_rs.Wire.{frame_of}
use hass_sma_rs.Tests.Samples.{reply, reply_packet, reply-IsReply, up_session}

-- A frame that does not even parse.
abbrev junk : List ℕ
junk = 0x7e ∷ 0x00 ∷ []

junk_refused : parse junk ≡ err (too_short 2 18)
unfolding parse
junk_refused = refl

junk-IsUnrelated : (want : ℕ) → IsUnrelated want junk
unfolding IsUnrelated
junk-IsUnrelated want other r = absurd (cc (r.parses, junk_refused))

replicate-IsUnrelated : (want n : ℕ) → All (IsUnrelated want) (replicate n junk)
replicate-IsUnrelated want zero = tt
replicate-IsUnrelated want (suc n) = (junk-IsUnrelated want, replicate-IsUnrelated want n)

handshake_and_logon-IsSettled_example :
    let (r, s') =
      handshake_and_logon mock_transport 1700000000 (on_mock up_session [] (junk ∷ [])) in
    IsSettled r s'.state
handshake_and_logon-IsSettled_example =
    handshake_and_logon-IsSettled mock_transport 1700000000 (on_mock up_session [] (junk ∷ []))

query_for_device-Answers_example :
    Answers mock_transport 0x78 2130000000 spot_ac_total_power
      (on_mock up_session [] (junk ∷ frame_of reply_packet ∷ []))
      (query_for_device mock_transport 0x78 2130000000 spot_ac_total_power
        (on_mock up_session [] (junk ∷ frame_of reply_packet ∷ [])))
query_for_device-Answers_example =
    query_for_device-Answers mock_transport 0x78 2130000000 spot_ac_total_power
      (on_mock up_session [] (junk ∷ frame_of reply_packet ∷ []))

-- The session after 32767 packets.
abbrev worn_session : Session MockTransport
worn_session = record up_session { pcktid = 32767 }

query_for_device-dead_example :
    (query_for_device mock_transport 0x78 2130000000 spot_ac_total_power worn_session).0
    ≢ ok reply.body
query_for_device-dead_example =
    query_for_device-dead mock_transport 0x78 2130000000 spot_ac_total_power worn_session
      (omega arith) reply.body

two_junk-IsUnrelated : All (IsUnrelated 1) (junk ∷ junk ∷ [])
two_junk-IsUnrelated = (junk-IsUnrelated 1, (junk-IsUnrelated 1, tt))

sixteen-IsUnrelated : All (IsUnrelated 1) (replicate 16 junk)
sixteen-IsUnrelated = replicate-IsUnrelated 1 16

query_for_device-answered_example :
    query_for_device mock_transport 0x78 2130000000 spot_ac_total_power
      (on_mock up_session [] ((junk ∷ junk ∷ []) ++ frame_of reply_packet ∷ []))
    ≡ (ok reply.body, answered up_session 0x78 2130000000 spot_ac_total_power [] [])
query_for_device-answered_example =
    query_for_device-answered up_session 0x78 2130000000 spot_ac_total_power []
      (frame_of reply_packet) reply [] (junk ∷ junk ∷ []) reply-IsReply two_junk-IsUnrelated
      (omega arith) refl

await_logon-IsSuccess_example : Yields IsSuccess (await_logon mock_transport 3)
await_logon-IsSuccess_example = await_logon-IsSuccess mock_transport 3
