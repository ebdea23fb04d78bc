-- ===== src/Ojc/Time.antt =====
-- The text of a time is taken for that time.
use opo_c.Prelude.{
  ℕ, zero, suc, ◌+◌, ◌-◌, ◌*◌, ◌/◌, ◌%◌, ◌^◌, ◌<◌, ◌≡◌, ◌∙◌, ◌&&◌, leb, some, [], ◌∷◌, true, ◌++◌,
  arith, append_assoc,
}
use opo_c.Outcome.{done}
use opo_c.Bytes.{Bytes}
use opo_c.Builder.Slot.{with_nul}
use opo_c.Ojc.{Tm, Libc}
use opo_c.Ojc.Text.{read_num, read_nsecs, scan_time, int_sub, time_parse, nanoseconds, ◌>>=◌}

-- `k` decimal digits, "%0<k>d" of a number below 10 ^ k
unfoldable pub dec : ℕ → ℕ → Bytes
dec zero n = []
dec (suc k) n = (b'0' + n / 10 ^ k % 10) ∷ dec k n

-- One digit `d` turns `v` into `w`.
read_num-digit :
    (k v d w : ℕ) (s : Bytes)
    → d < 10
    → (v * 10 + d) % 2 ^ 32 ≡ w
    → read_num (suc k) v ((b'0' + d) ∷ s) ≡ read_num k w s
unfolding read_num
read_num-digit k v d w s h q =
    let e : 48 + d - 48 ≡ d = omega arith in
    let l : leb 48 (48 + d) && leb (48 + d) 57 ≡ true = ground arith in rw (l, e, q)

read_nsecs-digit :
    (k v d w : ℕ) (s : Bytes)
    → d < 10
    → v * 10 + d ≡ w
    → read_nsecs (suc k) v ((b'0' + d) ∷ s) ≡ read_nsecs k w s
unfolding read_nsecs
read_nsecs-digit k v d w s h q =
    let e : 48 + d - 48 ≡ d = omega arith in
    let l : leb 48 (48 + d) && leb (48 + d) 57 ≡ true = ground arith in rw (l, e, q)

read_num-dec_2 :
    (n : ℕ) (rest : Bytes) → n < 10 ^ 2 → read_num 2 0 (dec 2 n ++ rest) ≡ done (some (n, rest))
unfolding dec read_num
read_num-dec_2 n rest h =
    read_num-digit 1 0 (n / 10 % 10) (n / 10) (dec 1 n ++ rest) (omega arith) (omega arith)
    ∙ read_num-digit 0 (n / 10) (n / 1 % 10) n (dec 0 n ++ rest) (omega arith) (omega arith)

read_num-dec_4 :
    (n : ℕ) (rest : Bytes) → n < 10 ^ 4 → read_num 4 0 (dec 4 n ++ rest) ≡ done (some (n, rest))
unfolding dec read_num
read_num-dec_4 n rest h =
    read_num-digit 3 0 (n / 1000 % 10) (n / 1000) (dec 3 n ++ rest) (omega arith) (omega arith)
    ∙ read_num-digit 2 (n / 1000) (n / 100 % 10) (n / 100) (dec 2 n ++ rest) (omega arith)
        (omega arith)
    ∙ read_num-digit 1 (n / 100) (n / 10 % 10) (n / 10) (dec 1 n ++ rest) (omega arith)
        (omega arith)
    ∙ read_num-digit 0 (n / 10) (n / 1 % 10) n (dec 0 n ++ rest) (omega arith) (omega arith)

read_nsecs-dec :
    (n : ℕ) (rest : Bytes) → n < 10 ^ 9 → read_nsecs 9 0 (dec 9 n ++ rest) ≡ done (some (n, rest))
unfolding dec read_nsecs
read_nsecs-dec n rest h =
    read_nsecs-digit 8 0 (n / 100000000 % 10) (n / 100000000) (dec 8 n ++ rest) (omega arith)
      (omega arith)
    ∙ read_nsecs-digit 7 (n / 100000000) (n / 10000000 % 10) (n / 10000000) (dec 7 n ++ rest)
        (omega arith) (omega arith)
    ∙ read_nsecs-digit 6 (n / 10000000) (n / 1000000 % 10) (n / 1000000) (dec 6 n ++ rest)
        (omega arith) (omega arith)
    ∙ read_nsecs-digit 5 (n / 1000000) (n / 100000 % 10) (n / 100000) (dec 5 n ++ rest)
        (omega arith) (omega arith)
    ∙ read_nsecs-digit 4 (n / 100000) (n / 10000 % 10) (n / 10000) (dec 4 n ++ rest) (omega arith)
        (omega arith)
    ∙ read_nsecs-digit 3 (n / 10000) (n / 1000 % 10) (n / 1000) (dec 3 n ++ rest) (omega arith)
        (omega arith)
    ∙ read_nsecs-digit 2 (n / 1000) (n / 100 % 10) (n / 100) (dec 2 n ++ rest) (omega arith)
        (omega arith)
    ∙ read_nsecs-digit 1 (n / 100) (n / 10 % 10) (n / 10) (dec 1 n ++ rest) (omega arith)
        (omega arith)
    ∙ read_nsecs-digit 0 (n / 10) (n / 1 % 10) n (dec 0 n ++ rest) (omega arith) (omega arith)

-- The text of a time: year, month, day, hours, minutes, seconds and nanoseconds.
pub record Stamp : Type 0 where
  pub year : ℕ
  pub mon : ℕ
  pub mday : ℕ
  pub hour : ℕ
  pub min : ℕ
  pub sec : ℕ
  pub nsec : ℕ

abbrev pub IsStamp : Stamp → Type 0
IsStamp t =
    (t.year < 10 ^ 4)
    × (t.mon < 10 ^ 2)
    × (t.mday < 10 ^ 2)
    × (t.hour < 10 ^ 2)
    × (t.min < 10 ^ 2)
    × (t.sec < 10 ^ 2)
    × (t.nsec < 10 ^ 9)

unfoldable pub time_text : Stamp → Bytes
time_text t =
    dec 4 t.year
    ++ (b'-'
        ∷ (dec 2 t.mon
            ++ (b'-'
                ∷ (dec 2 t.mday
                    ++ (b'T'
                        ∷ (dec 2 t.hour
                            ++ (b':'
                                ∷ (dec 2 t.min
                                    ++ (b':'
                                        ∷ (dec 2 t.sec
                                            ++ (b'.' ∷ (dec 9 t.nsec ++ (b'Z' ∷ [])))))))))))))

-- the fields of `struct tm` for it
abbrev pub broken_down : Stamp → Tm
broken_down t = record {
  tm_year = int_sub t.year 1900;
  tm_mon = int_sub t.mon 1;
  tm_mday = t.mday;
  tm_hour = t.hour;
  tm_min = t.min;
  tm_sec = t.sec;
}

time_text_lem :
    (t : Stamp)
    → with_nul (time_text t)
      ≡ dec 4 t.year
        ++ (b'-'
            ∷ (dec 2 t.mon
                ++ (b'-'
                    ∷ (dec 2 t.mday
                        ++ (b'T'
                            ∷ (dec 2 t.hour
                                ++ (b':'
                                    ∷ (dec 2 t.min
                                        ++ (b':'
                                            ∷ (dec 2 t.sec
                                                ++ (b'.'
                                                    ∷ (dec 9 t.nsec ++ (b'Z' ∷ (0 ∷ []))))))))))))))
unfolding time_text
time_text_lem t = rw (
  append_assoc, append_assoc, append_assoc, append_assoc, append_assoc, append_assoc, append_assoc,
)

scan_time-time_text :
    (t : Stamp)
    → IsStamp t
    → scan_time (with_nul (time_text t)) ≡ done (some ((broken_down t, t.nsec), 0 ∷ []))
unfolding scan_time
scan_time-time_text t (y, mo, d, h, mi, s, ns) = rw (time_text_lem t) (
    rw (
      ◌>>=◌,
      read_num-dec_4 t.year _ y,
      read_num-dec_2 t.mon _ mo,
      read_num-dec_2 t.mday _ d,
      read_num-dec_2 t.hour _ h,
      read_num-dec_2 t.min _ mi,
      read_num-dec_2 t.sec _ s,
      read_nsecs-dec t.nsec _ ns,
    ))

-- The code of a stamp is its seconds by `timegm`, and its nanoseconds.
pub time_parse-time_text :
    {D : Type 0} (libc : Libc D) (t : Stamp)
    → IsStamp t
    → time_parse libc (with_nul (time_text t))
      ≡ done (nanoseconds (libc.timegm (broken_down t)) t.nsec)
unfolding time_parse
time_parse-time_text libc t h = rw (time_parse, scan_time-time_text t h)
