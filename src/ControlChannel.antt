-- ===== src/ControlChannel.antt =====
-- src/control_channel.rs: the messages inside the TLS stream. A string is its bytes, and what
-- `String::from_utf8_lossy` makes of bytes is a parameter.
pub mod Strings
pub mod Stream
pub mod RoundTrip
pub mod Announce
mod Tests
use just_another_vpn_server.Prelude.{
  ℕ, suc, ◌+◌, ◌%◌, ◌^◌, Bool, true, false, not, List, [], ◌∷◌, ◌++◌, Option, none, some, length,
  get_or, take, drop, ltb, ◌==◌, if◌then◌else◌, list_beq, Result, ok, err, Error, ◌>>=◌, ◌>>◌,
  bail_if,
}
use just_another_vpn_server.Prelude.Bytes.{to_be, from_be}
use just_another_vpn_server.Primitives.{Primitives}
use Error.{bad_zero_prefix, unsupported_key_method}

abbrev pub key_method_2 : ℕ
key_method_2 = 2

-- `ready` has the value and the number of bytes to drop from the front of the buffer.
pub data Pop {ℓ} (A : Type ℓ) : Type ℓ where
  ready : A → ℕ → Pop A
  need_more : Pop A

pub record ClientKeyMethod2 : Type 0 where
  pub pre_master : List ℕ
  pub random1 : List ℕ
  pub random2 : List ℕ
  pub options : List ℕ
  pub username : List ℕ
  pub password : List ℕ
  pub peer_info : List ℕ

pub record ServerKeyMethod2 : Type 0 where
  pub random1 : List ℕ
  pub random2 : List ℕ
  pub options : List ℕ
  pub username : List ℕ
  pub password : List ℕ
  pub peer_info : List ℕ

-- `match .. { Some(s) => s, None => return Ok(Pop::NeedMore) }`
abbrev pub or_more {ℓ κ} :
    {A : Type ℓ} {B : Type κ} → Option A → (A → Result (Pop B)) → Result (Pop B)
or_more none k = ok need_more
or_more (some a) k = k a

-- The bytes without a NUL at the end.
unfoldable pub strip_nul : List ℕ → List ℕ
strip_nul [] = []
strip_nul (b ∷ []) = if b == 0 then [] else b ∷ []
strip_nul (b ∷ c ∷ bs) = b ∷ strip_nul (c ∷ bs)

-- `out` with the string behind it: a length of two bytes that counts the NUL, the bytes, the NUL.
unfoldable pub write_lp_string : List ℕ → List ℕ → List ℕ
write_lp_string out s = let len = length s + 1 in (out ++ to_be 2 (len % 2 ^ 16)) ++ (s ++ 0 ∷ [])

unfoldable pub encode : ServerKeyMethod2 → List ℕ
encode km =
    let head = 0 ∷ 0 ∷ 0 ∷ 0 ∷ key_method_2 ∷ [] in
    let out = (head ++ km.random1) ++ km.random2 in
    write_lp_string
      (write_lp_string (write_lp_string (write_lp_string out km.options) km.username) km.password)
      km.peer_info

-- `buf.iter().position(|&b| b == 0)`
unfoldable pub position_nul : List ℕ → Option ℕ
position_nul [] = none
position_nul (b ∷ bs) =
    if b == 0 then some 0 else elim (position_nul bs) [ none ↦ none | some i ↦ some (suc i) ]

module _ (lib : Primitives) where
  -- The string at `off` and the offset behind it; `none` where the buffer ends before it does. The
  -- source's function has a `Result` around this and never fails.
  unfoldable pub read_lp_string : List ℕ → ℕ → Option (List ℕ × ℕ)
  read_lp_string buf off =
      if ltb (length buf) (off + 2)
      then none
      else (let len = from_be (take 2 (drop off buf)) in
          if ltb (length buf) (off + 2 + len)
          then none
          else (let start = off + 2 in
              let end = start + len in
              if len == 0
              then some ([], end)
              else some (lib.from_utf8_lossy (strip_nul (take len (drop start buf))), end)))

  -- The part of `try_parse` behind the fields of fixed size.
  unfoldable pub parse_strings : List ℕ → List ℕ → List ℕ → List ℕ → Result (Pop ClientKeyMethod2)
  parse_strings buf pre_master random1 random2 = or_more (read_lp_string buf 117) λ options.
      or_more (read_lp_string buf options.1) λ username.
        or_more (read_lp_string buf username.1) λ password.
          or_more (read_lp_string buf password.1) λ peer_info. ok (
            ready
              (record {
                pre_master = pre_master;
                random1 = random1;
                random2 = random2;
                options = options.0;
                username = username.0;
                password = password.0;
                peer_info = peer_info.0;
              })
              peer_info.1)

  unfoldable pub try_parse : List ℕ → Result (Pop ClientKeyMethod2)
  try_parse buf = if ltb (length buf) 117 then ok need_more else (do
    bail_if (not (list_beq (take 4 buf) (0 ∷ 0 ∷ 0 ∷ 0 ∷ []))) bad_zero_prefix
    bail_if (not (get_or buf 4 0 == key_method_2)) unsupported_key_method
    let pre_master = take 48 (drop 5 buf)
    let random1 = take 32 (drop 53 buf)
    let random2 = take 32 (drop 85 buf)
    parse_strings buf pre_master random1 random2)

  unfoldable pub pop_before : List ℕ → Option ℕ → Pop (List ℕ)
  pop_before buf none = need_more
  pop_before buf (some idx) = ready (lib.from_utf8_lossy (take idx buf)) (idx + 1)

  unfoldable pub try_pop_ascii : List ℕ → Pop (List ℕ)
  try_pop_ascii buf = pop_before buf (position_nul buf)
