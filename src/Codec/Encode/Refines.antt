-- ===== src/Codec/Encode/Refines.antt =====
-- The coder of bcap_core/src/bcap_common.c against the layout of VARIANTs.
use denso_robot_ros.Prelude.{
  ℕ, ◌+◌, drop, leb, if◌then◌else◌, ◌^◌, ◌≤◌, ◌≡◌, sym, ap, subst, List, ◌++◌, append-nil, length,
  false, arith,
}
use denso_robot_ros.Hresult.{Outcome, ok, failed, e_invalidarg, ◌>>=◌}
use denso_robot_ros.Bytes.{le_bytes}
use denso_robot_ros.Variant.{
  Variant, Variants, plain, bstr, null_array, scalar_array, bstr_array, variant_array, nil, cons,
  vt_of, count_variants,
}
use denso_robot_ros.Codec.Buffer.{
  Buffer, at, put_le, Writes, Writes-put_le, Writes-nil, Writes-bind,
}
use denso_robot_ros.Codec.Date.{DateFloats}
use denso_robot_ros.Codec.Encode.{
  count_of, put_data, put_item, skip_length, vnt2bytary, vntary2bytary,
}
use denso_robot_ros.Codec.Encode.Appends.{
  array_count-eq, Writes-put_bstr, Writes-put_bstrs, Writes-put_scalar_array, Writes-put_plain,
}
use denso_robot_ros.Codec.Wire.{wire_count, wire_value, wire_variants, IsEncodable, AllEncodable}

pub count_of-eq : (v : Variant) → IsEncodable v → count_of v ≡ ok (wire_count v)
unfolding count_of wire_count
count_of-eq (plain vt bits) h = ap ok (omega arith)
count_of-eq (bstr s) h = ap ok (omega arith)
count_of-eq (null_array vt) h = absurd h
count_of-eq (scalar_array vt lb xs) (hlb, hn) =
    ap ok (array_count-eq (length xs) lb (omega arith) hlb)
count_of-eq (bstr_array lb ss) (hlb, hn) = ap ok (array_count-eq (length ss) lb (omega arith) hlb)
count_of-eq (variant_array lb vs) (hlb, hn, hvs) =
    ap ok (array_count-eq (count_variants vs) lb (omega arith) hlb)

module _ (len : ℕ) (small : len ≤ 2 ^ 31) where
  pub Writes-put_data :
      (v : Variant) (value : ℕ → Buffer → Outcome Buffer) (n : ℕ) (w : List ℕ)
      → count_of v ≡ ok n
      → Writes len (value n) w
      → Writes len (put_data len v value) (le_bytes 2 (vt_of v) ++ (le_bytes 4 n ++ w))
  unfolding put_data
  Writes-put_data v value n w e hw =
      let body = λ (c : Outcome ℕ) (b1 : Buffer). c >>= λ cnt. put_le len 4 cnt b1 >>= value cnt in
      subst
        (λ c.
          Writes len (λ b. put_le len 2 (vt_of v) b >>= body c)
            (le_bytes 2 (vt_of v) ++ (le_bytes 4 n ++ w)))
        (sym e)
        (Writes-bind len (put_le len 2 (vt_of v)) (body (ok n)) _ _
          (Writes-put_le len 2 (vt_of v) (omega arith))
          (Writes-bind len (put_le len 4 n) (value n) _ _ (Writes-put_le len 4 n (omega arith)) hw))

  -- One round of the loop without the length in front.
  Writes-put_item :
      (v : Variant) (value : ℕ → Buffer → Outcome Buffer) (w : List ℕ)
      → Writes len (put_data len v value) w
      → Writes len (put_item len false v value) w
  unfolding put_item skip_length
  Writes-put_item v value w hw =
      rw (append-nil w) at (Writes-bind len (put_data len v value) ok w _ hw (Writes-nil len))

  module _ (fl : DateFloats) where
    mutual
      unfolding vnt2bytary wire_value wire_count count_variants

      pub Writes-value :
          (v : Variant)
          → IsEncodable v
          → Writes len (vnt2bytary fl len v (wire_count v)) (wire_value fl v)
      Writes-value (plain vt bits) h = Writes-put_plain len small fl vt bits
      Writes-value (bstr s) h = Writes-put_bstr len small s
      Writes-value (null_array vt) h = absurd h
      Writes-value (scalar_array vt lb xs) h = Writes-put_scalar_array len small fl vt xs h.1
      Writes-value (bstr_array lb ss) h = Writes-put_bstrs len small ss
      Writes-value (variant_array lb vs) h = Writes-variants vs h.2

      Writes-variants :
          (vs : Variants)
          → AllEncodable vs
          → Writes len (vntary2bytary fl len vs false (count_variants vs)) (wire_variants fl vs)
      Writes-variants nil h = Writes-nil len
      Writes-variants (cons v vs) h =
          Writes-bind len (put_item len false v (vnt2bytary fl len v))
            (vntary2bytary fl len vs false (count_variants vs)) _ _
            (Writes-put_item v (vnt2bytary fl len v) _ (
              Writes-put_data v (vnt2bytary fl len v) (wire_count v) (wire_value fl v)
                (count_of-eq v (h.0)) (Writes-value v (h.0))))
            (Writes-variants vs (h.1))

    -- bcap_vnt2bytary appends to the bytes before `*offset` the data of a VARIANT that can be sent,
    -- in a buffer of `len` bytes, at most 2 ^ 31, and fails with E_INVALIDARG exactly where they do
    -- not fit.
    pub vnt2bytary-appends :
        (v : Variant) (pre rest : List ℕ)
        → IsEncodable v
        → len ≤ length pre + length rest
        → length pre ≤ len
        → vnt2bytary fl len v (wire_count v) (at pre rest) ≡ (
            if leb (length pre + length (wire_value fl v)) len
            then ok (at (pre ++ wire_value fl v) (drop (length (wire_value fl v)) rest))
            else failed e_invalidarg)
    vnt2bytary-appends v pre rest h room low = (Writes-value v h).run pre rest room low
