-- ===== src/Text/Order.antt =====
-- The order of texts, that of Go's `<` on strings.
use docker_port_forward.Common.{refl, ◌≡◌, true, false, [], ◌∷◌, arith}
use docker_port_forward.Text.Base.{Text, text_lt}

pub text_lt_asym : (s t : Text) → text_lt s t ≡ true → text_lt t s ≡ false
unfolding text_lt
text_lt_asym [] [] h = cc
text_lt_asym [] (d ∷ t) h = cc
text_lt_asym (c ∷ s) [] h = cc
text_lt_asym (c ∷ s) (d ∷ t) h = ground (arith, text_lt_asym s t)

-- What is not above `s` and what is not above that are not above `s`.
pub text_lt-trans_not :
    (r s t : Text) → text_lt s r ≡ false → text_lt t s ≡ false → text_lt t r ≡ false
unfolding text_lt
text_lt-trans_not [] [] t h k = k
text_lt-trans_not [] (d ∷ s) [] h k = cc
text_lt-trans_not [] (d ∷ s) (e ∷ t) h k = cc
text_lt-trans_not (c ∷ r) [] t h k = cc
text_lt-trans_not (c ∷ r) (d ∷ s) [] h k = cc
text_lt-trans_not (c ∷ r) (d ∷ s) (e ∷ t) h k = ground (arith, text_lt-trans_not r s t)

pub text_lt_irrefl : (s : Text) → text_lt s s ≡ false
unfolding text_lt
text_lt_irrefl [] = refl
text_lt_irrefl (c ∷ s) = ground (arith, text_lt_irrefl s)
