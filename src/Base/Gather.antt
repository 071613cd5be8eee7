-- ===== src/Base/Gather.antt =====
-- A loop that keeps, drops or changes the elements of a list, on lists without an order.
use mathlib.Core.Path.{subst}
use mathlib.Core.List.{List, [], ◌∷◌, ◌++◌, append_assoc, Permᴰ}
use mathlib.Core.List.Permᴰ
use mathlib.Core.List.Permᴰ.{nil, cons, swap, trans}

-- What a function gives on each element, one after another.
abbrev pub gather {ℓ κ} : {A : Type ℓ} {B : Type κ} → (A → List B) → List A → List B
gather f [] = []
gather f (x ∷ xs) = f x ++ gather f xs

module _ {ℓ κ} {A : Type ℓ} {B : Type κ} (f : A → List B) where
  gather-swap : (a b : A) (l : List B) → Permᴰ (f a ++ (f b ++ l)) (f b ++ (f a ++ l))
  gather-swap a b l =
      subst (λ x. Permᴰ x (f b ++ (f a ++ l))) (append_assoc (f a) (f b) l)
        (subst (λ x. Permᴰ ((f a ++ f b) ++ l) x) (append_assoc (f b) (f a) l)
          (Permᴰ.append_right l (Permᴰ.append_comm (f a) (f b))))

  pub gather-perm : {xs ys : List A} → Permᴰ xs ys → Permᴰ (gather f xs) (gather f ys)
  gather-perm nil = nil
  gather-perm (cons {b} {l₁} e p) = rw e (Permᴰ.append_left (f b) (gather-perm p))
  gather-perm (swap {a'} {b'} {l} e k) = rw (e, k) (gather-swap b' a' (gather f l))
  gather-perm (trans p q) = trans (gather-perm p) (gather-perm q)
