-- ===== src/Tests/Val.antt =====
-- Reading values.
use opo_c.Prelude.{
  ℕ, suc, ◌^◌, ◌<◌, ◌≡◌, ◌≢◌, ◌↔◌, refl, true, some, none, [], ◌∷◌, ◌++◌, length, arith, get_or,
  ◌+◌, ◌≤◌, if◌then◌else◌, leb, Option, replicate,
}
use opo_c.Prelude.Int.{ℤ, pos, negsuc}
use opo_c.Outcome.{done, fault, ◌>>=◌}
use opo_c.Err.{text, opo_err_no}
use opo_c.Val.{opo_val_bsize, switch}
use opo_c.Val.Size.{opo_val_bsize-encode}
use opo_c.Val.Access.{opo_val_int as read_int, opo_val_string, opo_val_key}
use opo_c.Val.Access.Read.{opo_val_int-encode, opo_val_string-encode, opo_val_key-encode_key}
use opo_c.Val.Members.{opo_val_member_count, count_items}
use opo_c.Val.Members.Count.{opo_val_member_count-object, count_items-stuck}
use opo_c.Msg.{opo_msg_set_id, opo_msg_id, opo_msg_val}
use opo_c.Msg.Id.{opo_msg_id-set_id}
use opo_c.Wire.{encode, encode_int, encode_string, encode_key, be, fixnum, string}
use opo_c.Tests.Samples.{no_err, fields, sample, junk, sample-IsValid}

encoded_sample :
    encode sample
    ≡ b'{' ∷ 0 ∷ 0 ∷ 0 ∷ 27 ∷ b'k' ∷ 2 ∷ b'i' ∷ b'd' ∷ 0 ∷ b'2' ∷ 1 ∷ 44 ∷ b'k' ∷ 4 ∷ b't' ∷ b'a'
      ∷ b'g' ∷ b's' ∷ 0 ∷ b'[' ∷ 0 ∷ 0 ∷ 0 ∷ 7 ∷ b's' ∷ 1 ∷ b'a' ∷ 0 ∷ b't' ∷ b'i' ∷ 254 ∷ []
unfolding encode encode_int encode_string encode_key be opo_c.Prelude.Int.to_word
encoded_sample = refl

opo_val_bsize-encode_example :
    opo_val_bsize (some (encode sample ++ junk)) ≡ done (length (encode sample))
opo_val_bsize-encode_example = opo_val_bsize-encode sample junk sample-IsValid

opo_val_int-encode_example :
    read_int no_err (some (encode (fixnum (negsuc 40000)) ++ junk)) ≡ done (negsuc 40000, no_err)
opo_val_int-encode_example = opo_val_int-encode no_err junk (negsuc 40000) (omega arith)

opo_val_string-encode_example :
    opo_val_string no_err (some (encode (string (text "abc")) ++ junk)) (some (pos 0))
    ≡ done (some (text "abc" ++ 0 ∷ junk), some (pos 3), no_err)
opo_val_string-encode_example =
    opo_val_string-encode no_err junk (text "abc") (some (pos 0)) (omega arith)

-- 256 bytes: NULL, and no report
opo_val_key-encode_key_example :
    opo_val_key no_err (some (encode_key (replicate 256 b'k') ++ junk)) (some (pos 5))
    ≡ done (none, some (pos 5), no_err)
opo_val_key-encode_key_example =
    opo_val_key-encode_key no_err junk (replicate 256 b'k') (some (pos 5))

opo_val_member_count-object_example :
    opo_val_member_count 3 no_err (some (encode sample ++ junk)) ≡ done (2, no_err)
opo_val_member_count-object_example =
    opo_val_member_count-object 3 no_err fields junk sample-IsValid (omega arith) (omega arith)

-- 'x' is no tag
count_items-stuck_example : count_items 5 1 (b'x' ∷ []) 0 ≢ done 1
unfolding switch
count_items-stuck_example = count_items-stuck 5 b'x' [] 1 0 1 refl (omega arith)

opo_msg_id-set_id_example :
    ((opo_msg_set_id (replicate 8 0 ++ encode sample) 513 >>= λ msg. opo_msg_id msg) ≡ done 513)
    × ((opo_msg_set_id (replicate 8 0 ++ encode sample) 513 >>= λ msg. opo_msg_val msg)
        ≡ done (encode sample))
opo_msg_id-set_id_example = opo_msg_id-set_id (replicate 8 0) (encode sample) 513 refl (omega arith)

-- a text of 256 bytes, behind which `opo_err_no` writes outside of the message
text_too_long : opo_err_no (λ _. text "busy") 16 no_err (some (replicate 256 b'x')) ≡ fault
unfolding opo_err_no
text_too_long = refl
