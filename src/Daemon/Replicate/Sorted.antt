-- ===== src/Daemon/Replicate/Sorted.antt =====
-- The order in which `replicate` installs entries.
use mathlib.Core.List.{Permᴰ}
use backuply.Base.{
  ℕ, zero, suc, ◌≤◌, ◌<◌, ◌≡◌, inl, inr, refl, sym, arith, true, false, some, List, [], ◌∷◌, ◌++◌,
  ltb, get_elem?, All, Bool-cases,
}
use backuply.Text.{Text}
use backuply.Model.{Entry}
use backuply.Store.Listing.{text_le}
use backuply.Store.Path.{slash}
use backuply.Daemon.Replicate.{insert_entry, sort_entries}

text_le_refl : (p : Text) → text_le p p ≡ true
unfolding text_le
text_le_refl [] = refl
text_le_refl (x ∷ xs) = ground (arith, text_le_refl xs)

text_le_total : (p q : Text) → text_le p q ≡ false → text_le q p ≡ true
unfolding text_le
text_le_total [] q h = cc
text_le_total (x ∷ xs) [] h = refl
text_le_total (x ∷ xs) (y ∷ ys) h = ground (arith, text_le_total xs ys)

text_le_trans : (p q r : Text) → text_le p q ≡ true → text_le q r ≡ true → text_le p r ≡ true
unfolding text_le
text_le_trans [] q r h k = refl
text_le_trans (x ∷ xs) [] r h k = cc
text_le_trans (x ∷ xs) (y ∷ ys) [] h k = cc
text_le_trans (x ∷ xs) (y ∷ ys) (z ∷ zs) h k = ground (arith, text_le_trans xs ys zs)

-- What is below a directory comes after it.
below-text_le : (p : Text) (c : ℕ) (rest : Text) → text_le (p ++ c ∷ rest) p ≡ false
unfolding text_le
below-text_le [] c rest = refl
below-text_le (x ∷ p) c rest = ground (arith, below-text_le p c rest)

abbrev Above : Entry → List Entry → Type 0
Above e = All (λ d. text_le e.path d.path ≡ true)

abbrev IsSorted : List Entry → Type 0
IsSorted [] = Unit
IsSorted (e ∷ es) = Above e es × IsSorted es

Above-trans :
    (e d : Entry) (es : List Entry) → text_le e.path d.path ≡ true → Above d es → Above e es
Above-trans e d [] h k = tt
Above-trans e d (x ∷ es) h k = (text_le_trans e.path d.path x.path h k.0, Above-trans e d es h k.1)

Above-insert :
    (e d : Entry) (es : List Entry)
    → text_le d.path e.path ≡ true
    → Above d es
    → Above d (insert_entry e es)
unfolding insert_entry
Above-insert e d [] h k = (h, tt)
Above-insert e d (x ∷ es) h k = elim (Bool-cases (text_le e.path x.path)) [
  | inl le ↦ rw le (h, k)
  | inr gt ↦ rw gt (k.0, Above-insert e d es h k.1)
]

insert-IsSorted : (e : Entry) (es : List Entry) → IsSorted es → IsSorted (insert_entry e es)
unfolding insert_entry
insert-IsSorted e [] h = (tt, tt)
insert-IsSorted e (x ∷ es) h = elim (Bool-cases (text_le e.path x.path)) [
  | inl le ↦ rw le ((le, Above-trans e x es le h.0), h)
  | inr gt ↦
      rw gt (Above-insert e x es (text_le_total e.path x.path gt) h.0, insert-IsSorted e es h.1)
]

sort-IsSorted : (es : List Entry) → IsSorted (sort_entries es)
unfolding sort_entries
sort-IsSorted [] = tt
sort-IsSorted (e ∷ es) = insert-IsSorted e (sort_entries es) (sort-IsSorted es)

Above-get :
    (e d : Entry) (es : List Entry) (i : ℕ)
    → Above e es
    → get_elem? es i ≡ some d
    → text_le e.path d.path ≡ true
Above-get e d [] i h k = cc
Above-get e d (x ∷ es) zero h k = let s : x ≡ d = ground (arith, k) in rw (sym s) h.0
Above-get e d (x ∷ es) (suc i) h k = Above-get e d es i h.1 k

IsSorted-get :
    (es : List Entry) (i j : ℕ) (a b : Entry)
    → IsSorted es
    → get_elem? es i ≡ some a
    → get_elem? es j ≡ some b
    → j ≤ i
    → text_le b.path a.path ≡ true
IsSorted-get [] i j a b s h k l = cc
IsSorted-get (x ∷ es) zero zero a b s h k l =
    let e : a ≡ b = ground (arith, h, k) in rw e (text_le_refl b.path)
IsSorted-get (x ∷ es) (suc i) zero a b s h k l =
    let e : x ≡ b = ground (arith, k) in rw (sym e) (Above-get x a es i s.0 h)
IsSorted-get (x ∷ es) zero (suc j) a b s h k l = absurd (omega arith)
IsSorted-get (x ∷ es) (suc i) (suc j) a b s h k l = IsSorted-get es i j a b s.1 h k (omega arith)

-- Each entry stands before those that lie below its path.
abbrev pub IsParentsFirst : List Entry → Type 0
IsParentsFirst es =
    (i j : ℕ) (parent child : Entry) (rest : Text)
    → get_elem? es i ≡ some parent
    → get_elem? es j ≡ some child
    → child.path ≡ parent.path ++ slash ∷ rest
    → i < j

pub sort-IsParentsFirst : (es : List Entry) → IsParentsFirst (sort_entries es)
sort-IsParentsFirst es i j parent child rest h k below = elim (Bool-cases (ltb i j)) [
  | inl less ↦ ground arith
  | inr other ↦
      let le =
        IsSorted-get (sort_entries es) i j parent child (sort-IsSorted es) h k (ground arith) in
      let gt = below-text_le parent.path slash rest in absurd (ground (arith, rw below at le, gt))
]

perm_refl : (es : List Entry) → Permᴰ es es
perm_refl [] = Permᴰ.nil
perm_refl (e ∷ es) = Permᴰ.cons refl (perm_refl es)

insert-perm : (e : Entry) (es : List Entry) → Permᴰ (insert_entry e es) (e ∷ es)
unfolding insert_entry
insert-perm e [] = perm_refl (e ∷ [])
insert-perm e (x ∷ es) = elim (Bool-cases (text_le e.path x.path)) [
  | inl le ↦ rw le (perm_refl (e ∷ x ∷ es))
  | inr gt ↦ rw gt (Permᴰ.trans (Permᴰ.cons refl (insert-perm e es)) (Permᴰ.swap refl refl))
]

-- Nothing is lost, and nothing comes twice.
pub sort-perm : (es : List Entry) → Permᴰ (sort_entries es) es
unfolding sort_entries
sort-perm [] = Permᴰ.nil
sort-perm (e ∷ es) = Permᴰ.trans (insert-perm e (sort_entries es)) (Permᴰ.cons refl (sort-perm es))
