-- ===== src/Lanes/Vector.antt =====
-- A vector over an index type: every operation is elementwise, as in
-- include/core/containers/mapping_access_vector.h.
use crypt_dough.Base.{fun_ext}
use crypt_dough.Lanes.{Lanes}

unfoldable pub vector : {I A : Type 0} (K : Type 0) → Lanes I A → Lanes (K × I) (K → A)
vector K v = record {
  top = v.top;
  at = λ a i. v.at (a i.0) i.1;
  zeros = λ k. v.zeros;
  add = λ a b k. v.add (a k) (b k);
  sub = λ a b k. v.sub (a k) (b k);
  neg = λ a k. v.neg (a k);
  mul = λ a b k. v.mul (a k) (b k);
  at-zeros = λ i. v.at-zeros i.1;
  at-add = λ a b i. v.at-add (a i.0) (b i.0) i.1;
  at-sub = λ a b i. v.at-sub (a i.0) (b i.0) i.1;
  at-neg = λ a i. v.at-neg (a i.0) i.1;
  at-mul = λ a b i. v.at-mul (a i.0) (b i.0) i.1;
  at_ext = λ a b h. fun_ext (λ k. v.at_ext (a k) (b k) (λ i. h (k, i)));
}
