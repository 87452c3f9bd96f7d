-- ===== src/Tests/Sockets.antt =====
-- Runs of the RFCOMM transport on a kernel with one scripted connection.
use hass_sma_rs.Prelude.{
  ℕ, suc, ◌+◌, ◌-◌, ◌<◌, ◌≡◌, refl, sym, ap, ◌∙◌, List, [], ◌∷◌, ◌++◌, length, true, Option, none,
  some, ok, err, arith,
}
use mathlib.Core.Option.{some-injective}
use hass_sma_rs.Transport.Interface.{io, timeout}
use hass_sma_rs.Transport.Framer.{new, push, pop_frame}
use hass_sma_rs.Transport.Framer.Invariant.{new-IsValid}
use hass_sma_rs.Transport.Framer.Behind.{behind}
use hass_sma_rs.Transport.Rfcomm.Address.{
  parse_bt_mac, format_bt_mac, split, from_str_radix, parse_parts,
}
use hass_sma_rs.Transport.Rfcomm.RoundTrip.{IsAddress, parse_bt_mac-format_bt_mac}
use hass_sma_rs.Transport.Rfcomm.Socket.{
  Kernel, RfcommTransport, connect_blocking, send_frame, recv_frame,
}
use hass_sma_rs.Transport.Rfcomm.Order.{IsStream, Uses, idle, sending, receiving, Uses-in_order}
use hass_sma_rs.Transport.Rfcomm.Returns.{Ticks, Returns, recv_frame-Returns}
use hass_sma_rs.Transport.Rfcomm.Late.{IsLate, recv_frame-IsLate}
use hass_sma_rs.Tests.Samples.{inverter_bt}

record Script : Type 0 where
  clock : ℕ
  open_fds : ℕ
  incoming : List (List ℕ)
  taken : List ℕ

abbrev give : Script → List (List ℕ) → Option (List ℕ) × Script
give s [] = (none, record s { clock = s.clock + 15000000000 })
give s (chunk ∷ rest) =
    (some chunk, record s { clock = s.clock + 1000000; incoming = rest; taken = s.taken ++ chunk })

-- The connection answers to one address only.
abbrev scripted : Kernel Script
scripted = record {
  socket = λ (s : Script) (a b : ℕ). (some s.open_fds, record s { open_fds = suc s.open_fds });
  bind = λ s fd a. (true, s);
  connect = λ s fd a. (true, record s { clock = s.clock + 1 });
  set_recv_timeout = λ s fd seconds. (true, s);
  send = λ (s : Script) (fd : ℕ) (bytes : List ℕ). (some (length bytes), s);
  recv = λ (s : Script) (fd : ℕ). give s s.incoming;
  close = λ (s : Script) (fd : ℕ). record s { open_fds = s.open_fds - 1 };
  now = λ (s : Script). s.clock;
}

-- A frame of eighteen bytes, cut into two reads behind a byte of noise.
abbrev first_half : List ℕ
first_half = 0x55 ∷ 0x7e ∷ 0x12 ∷ 0x00 ∷ 0x6c ∷ 1 ∷ 2 ∷ 3 ∷ []

abbrev second_half : List ℕ
second_half = 4 ∷ 5 ∷ 6 ∷ 7 ∷ 8 ∷ 9 ∷ 10 ∷ 11 ∷ 12 ∷ 13 ∷ 14 ∷ []

abbrev whole : List ℕ
whole = 0x7e ∷ 0x12 ∷ 0x00 ∷ 0x6c ∷ 1 ∷ 2 ∷ 3 ∷ second_half

abbrev start : Script
start = record { clock = 0; open_fds = 3; incoming = first_half ∷ second_half ∷ []; taken = [] }

abbrev up : RfcommTransport
up = record { fd = some 3; reader = new }

abbrev spent : Script
spent = record { clock = 2000000; open_fds = 3; incoming = []; taken = first_half ++ second_half }

connects : (connect_blocking scripted inverter_bt none start).0 ≡ ok up
unfolding connect_blocking
connects = refl

receives : recv_frame scripted 3 up 15000 start ≡ some (ok whole, up, spent)
unfolding recv_frame push pop_frame new
receives = refl

-- The peer is silent: the receive timeout of the socket ends the read with -1.
silence :
    recv_frame scripted 3 up 15000 spent ≡ some (err io, up, record spent { clock = 15002000000 })
unfolding recv_frame push pop_frame new
silence = refl

parses :
    parse_bt_mac
      (48 ∷ 48 ∷ 58 ∷ 56 ∷ 48 ∷ 58 ∷ 50 ∷ 53 ∷ 58 ∷ 50 ∷ 49 ∷ 58 ∷ 51 ∷ 50 ∷ 58 ∷ 43 ∷ 102 ∷ [])
    ≡ some (record { b0 = 15; b1 = 0x32; b2 = 0x21; b3 = 0x25; b4 = 0x80; b5 = 0 })
unfolding parse_bt_mac split from_str_radix parse_parts
parses = refl

five_parts : parse_bt_mac (48 ∷ 58 ∷ 49 ∷ 58 ∷ 50 ∷ 58 ∷ 51 ∷ 58 ∷ 52 ∷ []) ≡ none
unfolding parse_bt_mac split
five_parts = refl

inverter_bt-IsAddress : IsAddress inverter_bt
inverter_bt-IsAddress = record {
  byte0 = omega arith;
  byte1 = omega arith;
  byte2 = omega arith;
  byte3 = omega arith;
  byte4 = omega arith;
  byte5 = omega arith;
}

parse_bt_mac-format_bt_mac_example : parse_bt_mac (format_bt_mac inverter_bt) ≡ some inverter_bt
parse_bt_mac-format_bt_mac_example = parse_bt_mac-format_bt_mac inverter_bt inverter_bt-IsAddress

give-taken :
    (s s' : Script) (incoming : List (List ℕ)) (chunk : List ℕ)
    → give s incoming ≡ (some chunk, s')
    → s'.taken ≡ s.taken ++ chunk
give-taken s s' [] chunk e = absurd (cc (ap (λ (p : Option (List ℕ) × Script). p.0) e))
give-taken s s' (c ∷ rest) chunk e =
    ap (λ (p : Option (List ℕ) × Script). p.1.taken) (sym e)
    ∙ ap (λ (bytes : List ℕ). s.taken ++ bytes)
        (some-injective c chunk (ap (λ (p : Option (List ℕ) × Script). p.0) e))

give-failed :
    (s s' : Script) (incoming : List (List ℕ)) → give s incoming ≡ (none, s') → s'.taken ≡ s.taken
give-failed s s' [] e = ap (λ (p : Option (List ℕ) × Script). p.1.taken) (sym e)
give-failed s s' (c ∷ rest) e = absurd (cc (ap (λ (p : Option (List ℕ) × Script). p.0) e))

give-ticks :
    (s s' : Script) (incoming : List (List ℕ)) (chunk : List ℕ)
    → give s incoming ≡ (some chunk, s')
    → s.clock < s'.clock
give-ticks s s' [] chunk e = absurd (cc (ap (λ (p : Option (List ℕ) × Script). p.0) e))
give-ticks s s' (c ∷ rest) chunk e =
    omega (arith, ap (λ (p : Option (List ℕ) × Script). p.1.clock) e)

scripted-IsStream : IsStream scripted (λ (s : Script). s.taken)
scripted-IsStream = record {
  on_recv = λ s s' fd chunk e. give-taken s s' s.incoming chunk e;
  on_recv_error = λ s s' fd e. give-failed s s' s.incoming e;
  on_send = λ s s' fd bytes n e. ap (λ (p : Option ℕ × Script). p.1.taken) (sym e);
}

scripted-Ticks : Ticks scripted
scripted-Ticks = record { on_recv = λ s s' fd chunk e. give-ticks s s' s.incoming chunk e }

-- A send, a frame in two reads, and then a receive that fails.
in_use : Uses scripted up start (whole ∷ []) up (record spent { clock = 15002000000 })
unfolding send_frame
in_use = sending up start start (1 ∷ 2 ∷ []) (ok 2) (whole ∷ []) up _ refl (
    receiving up up start spent 3 15000 (ok whole) [] up _ receives (
      receiving up up spent (record spent { clock = 15002000000 }) 3 15000 (err io) [] up _ silence
        (idle up (record spent { clock = 15002000000 }))))

Uses-in_order_example : push new (first_half ++ second_half) ≡ some (behind (whole ∷ []) new)
Uses-in_order_example =
    Uses-in_order scripted (λ (s : Script). s.taken) scripted-IsStream up up start
      (record spent { clock = 15002000000 }) (whole ∷ []) refl refl in_use

recv_frame-Returns_example : Returns scripted (recv_frame scripted 20000000000 up 15000 start)
recv_frame-Returns_example =
    recv_frame-Returns scripted scripted-Ticks 20000000000 15000 up start new-IsValid (omega arith)
      (omega arith)

-- Noise that goes on past the deadline.
abbrev noisy : Script
noisy = record {
  clock = 0;
  open_fds = 3;
  incoming = (1 ∷ []) ∷ (2 ∷ []) ∷ (3 ∷ []) ∷ [];
  taken = [];
}

abbrev after_noise : Script
after_noise = record { clock = 2000000; open_fds = 3; incoming = (3 ∷ []) ∷ []; taken = 1 ∷ 2 ∷ [] }

times_out : recv_frame scripted 3 up 1 noisy ≡ some (err (timeout 1), up, after_noise)
unfolding recv_frame push pop_frame new
times_out = refl

recv_frame-IsLate_example :
    IsLate scripted (λ (s : Script). s.taken) 0 (err (timeout 1)) after_noise
recv_frame-IsLate_example =
    recv_frame-IsLate scripted (λ (s : Script). s.taken) scripted-IsStream 3 1 up up noisy
      after_noise (err (timeout 1)) times_out
