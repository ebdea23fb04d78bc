-- ===== src/Builder/Fill.antt =====
-- What `fill_str`, `fill_key` and `fill_uuid` of src/opo/builder.c write. src/opo/opo.c has the
-- same functions.
use opo_c.Prelude.{ℕ, zero, suc, ◌+◌, ◌-◌, ◌*◌, ◌%◌, leb, ◌==◌, if◌then◌else◌, [], ◌∷◌, ◌++◌, ◌&&◌}
use opo_c.Prelude.Int.{ℤ, pos, negsuc}
use opo_c.Outcome.{Outcome, done, fault, ◌>>=◌}
use opo_c.Bytes.{Bytes, fill_uint16, fill_uint32}
use opo_c.Val.{tag, val_str1, val_str2, val_str4, val_key1, val_key2, val_uuid}
use opo_c.Val.Access.{read_bytes}

-- The tag and the length that come before a text and before a key.
unfoldable pub str_header : ℕ → Bytes
str_header len =
    if leb len 0xff
    then tag val_str1 ∷ (len % 256) ∷ []
    else if leb len 0xffff
    then tag val_str2 ∷ fill_uint16 len
    else tag val_str4 ∷ fill_uint32 len

unfoldable pub key_header : ℕ → Bytes
key_header len =
    if leb len 0xff then tag val_key1 ∷ (len % 256) ∷ [] else tag val_key2 ∷ fill_uint16 len

-- `memcpy` of `len` bytes of the text behind the header, and the NUL
unfoldable pub fill_str : Bytes → ℕ → Outcome Bytes
unfolding str_header
fill_str str len = do s ← read_bytes len str; done (str_header len ++ (s ++ (0 ∷ [])))

unfoldable pub fill_key : Bytes → ℕ → Outcome Bytes
unfolding key_header
fill_key str len = do s ← read_bytes len str; done (key_header len ++ (s ++ (0 ∷ [])))

-- The loop of `fill_uuid` over the `k` characters that are left: `half` is whether a first digit is
-- held in `b`, which is `digits` of the source. Other characters are passed over. `b << 4` wraps in
-- a byte; the new digit is below 16, so `|` adds.
unfoldable pub fill_uuid_loop : ℕ → ℕ → ℕ → Bytes → Outcome Bytes
fill_uuid_loop zero half b s = done []
fill_uuid_loop (suc k) half b [] = fault
fill_uuid_loop (suc k) half b (c ∷ s) =
    let digit = λ (b' : ℕ).
      (let first = fill_uuid_loop k 1 b' s in
        let second = do rest ← fill_uuid_loop k 0 0 s; done (b' ∷ rest)
        in if half == 0 then first else second) in
    let skipped = fill_uuid_loop k half b s in
    if leb b'0' c && leb c b'9'
    then digit (b * 16 % 256 + (c - b'0'))
    else if leb b'a' c && leb c b'f'
    then digit (b * 16 % 256 + (c - b'a' + 10))
    else skipped

unfoldable pub fill_uuid : Bytes → Outcome Bytes
unfolding fill_uuid_loop
fill_uuid str = do bytes ← fill_uuid_loop 36 0 0 str; done (tag val_uuid ∷ bytes)

-- `strlen`
unfoldable pub strlen : Bytes → Outcome ℕ
strlen [] = fault
strlen (c ∷ s) = let rest = strlen s in if c == 0 then done 0 else do n ← rest; done (n + 1)

-- `if (0 >= len) len = strlen(str)`
unfoldable pub text_length : Bytes → ℤ → Outcome ℕ
unfolding strlen
text_length str (pos zero) = strlen str
text_length str (pos (suc n)) = done (suc n)
text_length str (negsuc n) = strlen str
