-- ===== src/Prelude/Members.antt =====
-- Members of a list, and the reverse of a list.
use ai_agent_workflow.Prelude.{
  ◌≡◌, refl, sym, ap, ◌∙◌, inl, inr, List, [], ◌∷◌, ◌++◌, map, subst, All, All-append,
}
use mathlib.Core.List.Memᴰ
use mathlib.Core.List.{Memᴰ, reverse, reverse-cons, map-append}

pub Memᴰ-reverse {ℓ} : {A : Type ℓ} (xs : List A) (a : A) → Memᴰ a xs → Memᴰ a (reverse xs)
Memᴰ-reverse [] a m = elim m [ ]
Memᴰ-reverse (x ∷ xs) a m =
    subst (λ l. Memᴰ a l) (sym (reverse-cons x xs))
      (elim (Memᴰ.cases_cons m) [
        | inl e ↦ Memᴰ.append_right (reverse xs) (Memᴰ.head e)
        | inr t ↦ Memᴰ.append_left (x ∷ []) (Memᴰ-reverse xs a t)
      ])

pub map-reverse {ℓ ℓ'} :
    {A : Type ℓ} {B : Type ℓ'} (f : A → B) (xs : List A) → map f (reverse xs) ≡ reverse (map f xs)
map-reverse f [] = refl
map-reverse f (x ∷ xs) =
    ap (map f) (reverse-cons x xs)
    ∙ map-append f (reverse xs) (x ∷ [])
    ∙ ap (λ l. l ++ f x ∷ []) (map-reverse f xs)
    ∙ sym (reverse-cons (f x) (map f xs))

pub All-Memᴰ {ℓ} :
    {A : Type ℓ} {P : A → Type 0} (xs : List A) → ((x : A) → Memᴰ x xs → P x) → All P xs
All-Memᴰ [] f = tt
All-Memᴰ (x ∷ xs) f = (f x (Memᴰ.head refl), All-Memᴰ xs λ y m. f y (Memᴰ.tail m))

pub All-reverse {ℓ} : {A : Type ℓ} (P : A → Type 0) (xs : List A) → All P xs → All P (reverse xs)
All-reverse P [] h = tt
All-reverse P (x ∷ xs) h =
    rw (reverse-cons x xs) (All-append P (reverse xs) (x ∷ []) (All-reverse P xs h.1) (h.0, tt))
