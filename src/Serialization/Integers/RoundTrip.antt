-- ===== src/Serialization/Integers/RoundTrip.antt =====
-- `i2osp` and `os2ip` of serialization/mod.rs against the I2OSP and OS2IP functions of RFC 8017.
use opaque_vx.Prelude.{
  ℕ, ◌+◌, ◌-◌, ◌*◌, ◌/◌, ◌^◌, ◌≤◌, ◌<◌, ◌≡◌, sym, ap, ◌++◌, arith, ltb, if◌then◌else◌, Bytes,
  length, drop, replicate, le→ltb, lt→ltb,
}
use native.Mathlib.Decide.{dec_le, dec_lt}
use native.Mathlib.Nat.{pow-le-pow_right}
use opaque_vx.Prelude.Results.{ok, err}
use opaque_vx.Errors.{serialization_error}
use opaque_vx.Serialization.Integers.{sizeof_usize, leading_zeros, be_bytes, i2osp, os2ip}
use opaque_vx.Serialization.Integers.Digits.{
  two-pow-eight_mul, fits_iff, length-be_bytes, drop-be_bytes, be_bytes_pad, from_be_bytes-be_bytes,
}

-- A number below 256 ^ len has at most `len` bytes that are not leading zeros.
bytes_needed :
    (len input : ℕ)
    → input < 2 ^ 64
    → input < 256 ^ len
    → sizeof_usize - leading_zeros 64 input / 8 ≤ len
bytes_needed len input h small = elim (dec_le len 8) [
  | yes short ↦
      omega
        (arith, (fits_iff 64 (8 * len) input (omega arith) h).1 (rw (two-pow-eight_mul len) small))
  | no long ↦ omega arith
]

too_few :
    (len input : ℕ)
    → input < 2 ^ 64
    → 256 ^ len ≤ input
    → len < sizeof_usize - leading_zeros 64 input / 8
too_few len input h large = elim (dec_lt len 8) [
  | yes short ↦ elim (dec_le 64 (leading_zeros 64 input + 8 * len)) [
    | yes fits ↦
        absurd (
          omega
            (arith, two-pow-eight_mul len, (fits_iff 64 (8 * len) input (omega arith) h).0 fits))
    | no misfit ↦ omega arith
  ]
  | no long ↦
      absurd
        (omega (arith, pow-le-pow_right {n = 256} (omega arith) {i = 8} {j = len} (omega arith)))
]

-- The slice that `i2osp` fills holds the digits of the number.
digits_kept :
    (len input : ℕ)
    → input < 2 ^ 64
    → input < 256 ^ len
    → replicate (len - sizeof_usize) 0 ++ drop (sizeof_usize - len) (be_bytes sizeof_usize input)
      ≡ be_bytes len input
digits_kept len input h small = elim (dec_le len 8) [
  | yes short ↦
      let none_left : len - sizeof_usize ≡ 0 = omega arith in
      rw none_left (drop-be_bytes sizeof_usize len input short)
  | no long ↦
      let none_cut : sizeof_usize - len ≡ 0 = omega arith in
      rw none_cut (sym (be_bytes_pad len sizeof_usize input (omega arith) h))
]

module _ {V W : Type 0} where
  -- For a `usize`, `i2osp` of length `len` gives the `len` base 256 digits exactly when the number is
  -- below 256 ^ len, and a serialization error otherwise.
  pub i2osp_lem :
      (len input : ℕ)
      → input < 2 ^ 64
      → i2osp {V = V} {W = W} len input
        ≡ (if ltb input (256 ^ len) then ok (be_bytes len input) else err serialization_error)
  unfolding i2osp
  i2osp_lem len input h = elim (dec_lt input (256 ^ len)) [
    | yes small ↦
        rw
          (
            lt→ltb input (256 ^ len) small,
            le→ltb len (sizeof_usize - leading_zeros 64 input / 8) (bytes_needed len input h small),
          )
          (ap ok (digits_kept len input h small))
    | no large ↦ rw (
      le→ltb input (256 ^ len) (omega arith),
      lt→ltb len (sizeof_usize - leading_zeros 64 input / 8) (too_few len input h (omega arith)),
    )
  ]

  os2ip-be_bytes :
      (len input : ℕ)
      → input < 256 ^ len
      → len ≤ sizeof_usize
      → os2ip {V = V} {W = W} (be_bytes len input) ≡ ok input
  unfolding os2ip
  os2ip-be_bytes len input small k =
      let l : length (be_bytes len input) ≡ len = length-be_bytes len input in
      let wide : input < 256 ^ sizeof_usize =
        omega (arith, pow-le-pow_right {n = 256} (omega arith) {i = len} {j = 8} k) in
      rw (l, le→ltb sizeof_usize len k, ← be_bytes_pad sizeof_usize len input k small)
        (ap ok (from_be_bytes-be_bytes sizeof_usize input wide))

  -- For a `usize` and a length of at most 8 bytes, what `i2osp` returns has the length asked for, and
  -- `os2ip` reads the number back.
  pub os2ip-i2osp :
      (len input : ℕ) (octets : Bytes)
      → input < 2 ^ 64
      → len ≤ sizeof_usize
      → i2osp {V = V} {W = W} len input ≡ ok octets
      → (length octets ≡ len) × (os2ip {V = V} {W = W} octets ≡ ok input)
  os2ip-i2osp len input octets h k e = elim (dec_lt input (256 ^ len)) [
    | yes small ↦
        let digits : be_bytes len input ≡ octets =
          ground (arith, i2osp_lem len input h, lt→ltb input (256 ^ len) small) in
        rw (← digits) (length-be_bytes len input, os2ip-be_bytes len input small k)
    | no large ↦
        absurd (ground (arith, i2osp_lem len input h, le→ltb input (256 ^ len) (omega arith)))
  ]
