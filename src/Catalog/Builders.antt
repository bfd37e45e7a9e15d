-- ===== src/Catalog/Builders.antt =====
-- pkg/catalog/toolfunction.go: what the builders of a canonical tree make of a pair of maps that
-- differ in the value of one key, and how such a pair starts.
use mathlib.Core.List.Permᴰ
use mathlib.Core.List.{Permᴰ}
use node_vault.Base.{
  ◌≡◌, refl, String, Bool, true, false, List, [], ◌∷◌, ◌==◌, if◌then◌else◌, is_empty, map,
}
use node_vault.Catalog.Json.{Json, Fields, put, put_list, put_str, put_bool, texts, text}
use node_vault.Catalog.Agreement.{SameSet, Apart, Apart-put, Apart-write}

module _ (P : Json → Json → Type 0) (k j : String) (h : (j == k) ≡ false) (m n : Fields) where
  pub Apart-put_str : (v : String) → Apart k P m n → Apart k P (put_str j v m) (put_str j v n)
  Apart-put_str v a = go (is_empty v)
    where
      go :
          (b : Bool)
          → Apart k P (if b then m else put j (text v) m) (if b then n else put j (text v) n)
      go true = a
      go false = Apart-put P k j (text v) m n h a

  pub Apart-put_bool : (v : Bool) → Apart k P m n → Apart k P (put_bool j v m) (put_bool j v n)
  Apart-put_bool true a = Apart-put P k j _ m n h a
  Apart-put_bool false a = a

  pub Apart-put_list :
      (vs : List Json) → Apart k P m n → Apart k P (put_list j vs m) (put_list j vs n)
  Apart-put_list [] a = a
  Apart-put_list (v ∷ vs) a = Apart-put P k j _ m n h a

same : {k : String} (m : Fields) → Apart k SameSet m m
same m = record { same_keys = refl; elsewhere = λ j e. refl; here = SameSet.equal refl }

-- The pair starts where the two lists are put, which are empty together.
pub Apart-start :
    (k : String) (m : Fields) (xs ys : List Json)
    → Permᴰ xs ys
    → Apart k SameSet (put_list k xs m) (put_list k ys m)
Apart-start k m [] [] d = same m
Apart-start k m [] (y ∷ ys) d = cc (Permᴰ.length-eq d)
Apart-start k m (x ∷ xs) [] d = cc (Permᴰ.length-eq d)
Apart-start k m (x ∷ xs) (y ∷ ys) d =
    Apart-write SameSet k _ _ m m refl (λ j e. refl) (SameSet.shuffled d)

pub Apart-put_same :
    (P : Json → Json → Type 0) (k : String) (v w : Json) (m : Fields)
    → P v w
    → Apart k P (put k v m) (put k w m)
Apart-put_same P k v w m p = Apart-write P k v w m m refl (λ j e. refl) p

pub map-Perm :
    {A : Type 0} (f : A → Json) {xs ys : List A} → Permᴰ xs ys → Permᴰ (map f xs) (map f ys)
map-Perm f Permᴰ.nil = Permᴰ.nil
map-Perm f (Permᴰ.cons e d) = Permᴰ.cons (λ i. f (e i)) (map-Perm f d)
map-Perm f (Permᴰ.swap p q) = Permᴰ.swap (λ i. f (p i)) (λ i. f (q i))
map-Perm f (Permᴰ.trans d e) = Permᴰ.trans (map-Perm f d) (map-Perm f e)

pub texts-Perm : {xs ys : List String} → Permᴰ xs ys → Permᴰ (texts xs) (texts ys)
texts-Perm Permᴰ.nil = Permᴰ.nil
texts-Perm (Permᴰ.cons e d) = Permᴰ.cons (λ i. text (e i)) (texts-Perm d)
texts-Perm (Permᴰ.swap p q) = Permᴰ.swap (λ i. text (p i)) (λ i. text (q i))
texts-Perm (Permᴰ.trans d e) = Permᴰ.trans (texts-Perm d) (texts-Perm e)
