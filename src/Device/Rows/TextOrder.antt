-- ===== src/Device/Rows/TextOrder.antt =====
-- The order of texts by their bytes is total and transitive.
use Prim.Native.Nat.{compare as compare_ℕ}
use Prim.Native.String.{[] as no_text, ◌∷◌ as ◌◂◌, then, compare}
use Prim.Native.String.compare
use Prim.Native.Char.{code}
use safe_play_guardian.Prelude.{
  ℕ, Ordering, ◌≡◌, refl, sym, ap, ◌∙◌, String, Bool, true, false, ◌||◌, ◌&&◌, ltb, nat_eq, ◌==◌,
  arith,
}
use safe_play_guardian.Device.Rows.{text_le}

abbrev not_greater : Ordering → Bool
not_greater Ordering.lt = true
not_greater Ordering.eq = true
not_greater Ordering.gt = false

-- The order by the characters.
unfoldable pub le : String → String → Bool
le no_text t = true
le (c ◂ s) no_text = false
le (c ◂ s) (d ◂ t) = ltb (code c) (code d) || (code c == code d && le s t)

then-le :
    (m n : ℕ) (o : Ordering)
    → not_greater (then (compare_ℕ m n) o) ≡ (ltb m n || (m == n && not_greater o))
then-le m n o = by_order (compare_ℕ m n)
  where
    by_order :
        (x : Ordering)
        → not_greater (then x o) ≡ (
            (elim x [ Ordering.lt ↦ true | _ ↦ false ])
            || ((elim x [ Ordering.eq ↦ true | _ ↦ false ]) && not_greater o))
    by_order Ordering.lt = refl
    by_order Ordering.eq = refl
    by_order Ordering.gt = refl

pub text_le-le : (s t : String) → text_le s t ≡ le s t
unfolding le
text_le-le no_text no_text = refl
text_le-le no_text (d ◂ t) = ap not_greater (compare.nil-cons d t)
text_le-le (c ◂ s) no_text = ap not_greater (compare.cons-nil c s)
text_le-le (c ◂ s) (d ◂ t) =
    ap not_greater (compare.cons-cons c d s t)
    ∙ then-le (code c) (code d) (compare s t)
    ∙ ap (λ b. ltb (code c) (code d) || (code c == code d && b)) (text_le-le s t)

le-total : (s t : String) → le s t ≡ false → le t s ≡ true
unfolding le
le-total no_text t h = cc
le-total (c ◂ s) no_text h = refl
le-total (c ◂ s) (d ◂ t) h = ground (arith, le-total s t)

le_trans : (s t u : String) → le s t ≡ true → le t u ≡ true → le s u ≡ true
unfolding le
le_trans no_text t u h k = refl
le_trans (c ◂ s) no_text u h k = cc
le_trans (c ◂ s) (d ◂ t) no_text h k = cc
le_trans (c ◂ s) (d ◂ t) (e ◂ u) h k = ground (arith, le_trans s t u)

pub text_le-total : (s t : String) → text_le s t ≡ false → text_le t s ≡ true
text_le-total s t h = text_le-le t s ∙ le-total s t (sym (text_le-le s t) ∙ h)

pub text_le_trans : (s t u : String) → text_le s t ≡ true → text_le t u ≡ true → text_le s u ≡ true
text_le_trans s t u h k =
    text_le-le s u ∙ le_trans s t u (sym (text_le-le s t) ∙ h) (sym (text_le-le t u) ∙ k)
