-- ===== src/Protocol/Auth.antt =====
-- crates/sma-bt-protocol/src/auth.rs: password encoding, and the bodies of the session packets.
pub mod Password
use hass_sma_rs.Prelude.{ℕ, zero, suc, ◌+◌, ◌%◌, List, [], ◌∷◌, take, replicate}
use hass_sma_rs.Prelude.Words.{u32_bytes}
use hass_sma_rs.Protocol.Packet.{encode_l2, init, logoff, logon}

pub data UserGroup : Type 0 where
  user installer : UserGroup

pub key : UserGroup → ℕ
key user = 0x88
key installer = 0xbb

pub group_code : UserGroup → ℕ
group_code user = 0x00000007
group_code installer = 0x0000000a

-- `out[i] = b.wrapping_add(key)` for the bytes in order, over what `out` holds from index `i` on.
pub add_key : ℕ → List ℕ → List ℕ → List ℕ
add_key key [] out = out
add_key key (b ∷ bs) [] = []
add_key key (b ∷ bs) (o ∷ out) = ((b + key) % 256) ∷ add_key key bs out

-- A password is the list of its UTF-8 bytes.
unfoldable pub encode_password : List ℕ → UserGroup → List ℕ
unfolding key add_key
encode_password pwd group = add_key (key group) (take 12 pwd) (replicate 12 (key group))

unfoldable pub build_init_body : ℕ → ℕ → List ℕ
build_init_body pkt_id app_serial =
    encode_l2 (init pkt_id app_serial) (u32_bytes 0x00000200 (u32_bytes 0 (u32_bytes 0 [])))

unfoldable pub build_logoff_body : ℕ → ℕ → List ℕ
build_logoff_body pkt_id app_serial =
    encode_l2 (logoff pkt_id app_serial) (u32_bytes 0xfffd010e (u32_bytes 0xffffffff []))

unfoldable pub build_logon_body : List ℕ → UserGroup → ℕ → ℕ → ℕ → List ℕ
unfolding group_code
build_logon_body pwd group pkt_id app_serial now_epoch = encode_l2 (logon pkt_id app_serial) (
    u32_bytes 0xfffd040c (
      u32_bytes (group_code group)
        (u32_bytes 0x00000384 (u32_bytes now_epoch (u32_bytes 0 (encode_password pwd group))))))
