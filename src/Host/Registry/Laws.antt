-- ===== src/Host/Registry/Laws.antt =====
-- The laws of the map of entries.
use binport.Base.{
  true, false, List, [], ◌∷◌, ◌++◌, ◌≡◌, refl, sym, ◌∙◌, ap, arith, All, All-append, none, some,
  if◌then◌else◌, append_assoc, append-nil, if_intro,
}
use binport.Host.Registry.{
  insert, insert_all, collect, contains_key, erase, lookup, Above, IsSorted, insert-IsSorted,
}
use binport.Host.{HostEntry}
use binport.Text.Order.{less, equal_iff, less_irrefl, less_trans}
use binport.Text.{Text, equal}

pub lookup-insert :
    (e : HostEntry) (n : Text) (xs : List HostEntry)
    → lookup n (insert e xs) ≡ (if equal e.name n then some e else lookup n xs)
unfolding insert
lookup-insert e n [] = ground arith
lookup-insert e n (x ∷ xs) =
    ground
      (arith, lookup-insert e n xs, equal_iff e.name n, equal_iff x.name n, equal_iff e.name x.name)

pub lookup-Above : (n : Text) (xs : List HostEntry) → Above n xs → lookup n xs ≡ none
lookup-Above n [] h = refl
lookup-Above n (x ∷ xs) (h, hs) =
    ground (arith, lookup-Above n xs hs, equal_iff x.name n, less_irrefl n)

pub lookup-erase :
    (name n : Text) (xs : List HostEntry)
    → IsSorted xs
    → lookup n (erase name xs) ≡ (if equal name n then none else lookup n xs)
unfolding erase
lookup-erase name n [] h = ground arith
lookup-erase name n (x ∷ xs) (above, h) = ground (
  arith,
  lookup-erase name n xs h,
  lookup-Above n xs,
  equal_iff name n,
  equal_iff x.name n,
  equal_iff x.name name,
)

Above-erase : (a name : Text) (xs : List HostEntry) → Above a xs → Above a (erase name xs)
unfolding erase
Above-erase a name [] h = tt
Above-erase a name (x ∷ xs) (h, hs) = ground (arith, Above-erase a name xs hs)

pub erase-IsSorted : (name : Text) (xs : List HostEntry) → IsSorted xs → IsSorted (erase name xs)
unfolding erase
erase-IsSorted name [] h = tt
erase-IsSorted name (x ∷ xs) (above, h) =
    ground (arith, erase-IsSorted name xs h, Above-erase x.name name xs above)

-- All the entries' properties are kept.
pub insert-All {ℓ} :
    (P : HostEntry → Type ℓ) (e : HostEntry) (xs : List HostEntry)
    → P e
    → All P xs
    → All P (insert e xs)
unfolding insert
insert-All P e [] h k = (h, tt)
insert-All P e (x ∷ xs) h (k, ks) =
    if_intro (All P) (less e.name x.name) (h, (k, ks))
      (if_intro (All P) (equal e.name x.name) (h, ks) (k, insert-All P e xs h ks))

pub erase-All {ℓ} :
    (P : HostEntry → Type ℓ) (name : Text) (xs : List HostEntry) → All P xs → All P (erase name xs)
unfolding erase
erase-All P name [] h = tt
erase-All P name (x ∷ xs) (k, ks) =
    if_intro (All P) (equal x.name name) ks (k, erase-All P name xs ks)

insert_last :
    (e : HostEntry) (xs : List HostEntry)
    → All (λ x. less x.name e.name ≡ true) xs
    → insert e xs ≡ xs ++ e ∷ []
unfolding insert
insert_last e [] h = refl
insert_last e (x ∷ xs) (h, hs) = ground (
  arith,
  insert_last e xs hs,
  less_trans x.name e.name x.name h,
  less_irrefl x.name,
  equal_iff e.name x.name,
)

-- Every name of `xs` is below every name of `ys`.
abbrev Below : List HostEntry → List HostEntry → Type 0
Below xs ys = All (λ y. All (λ x. less x.name y.name ≡ true) xs) ys

Below-concat :
    (xs ys : List HostEntry) (e : HostEntry)
    → Below xs ys
    → Above e.name ys
    → Below (xs ++ e ∷ []) ys
Below-concat xs [] e h k = tt
Below-concat xs (y ∷ ys) e (h, hs) (k, ks) =
    (All-append _ xs (e ∷ []) h (k, tt), Below-concat xs ys e hs ks)

insert_all-sorted : (m es : List HostEntry) → Below m es → IsSorted es → insert_all m es ≡ m ++ es
unfolding insert_all
insert_all-sorted m [] b s = sym (append-nil m)
insert_all-sorted m (e ∷ es) (h, hs) (above, s) =
    ap (λ t. insert_all t es) (insert_last e m h)
    ∙ insert_all-sorted (m ++ e ∷ []) es (Below-concat m es e hs above) s
    ∙ append_assoc m (e ∷ []) es

Below-nil : (es : List HostEntry) → Below [] es
Below-nil [] = tt
Below-nil (e ∷ es) = (tt, Below-nil es)

-- A list whose names are in order is the map's list of values already.
pub collect_sorted : (es : List HostEntry) → IsSorted es → collect es ≡ es
unfolding collect
collect_sorted es s = insert_all-sorted [] es (Below-nil es) s

insert_all-IsSorted : (m es : List HostEntry) → IsSorted m → IsSorted (insert_all m es)
unfolding insert_all
insert_all-IsSorted m [] h = h
insert_all-IsSorted m (e ∷ es) h = insert_all-IsSorted (insert e m) es (insert-IsSorted e m h)

pub collect-IsSorted : (es : List HostEntry) → IsSorted (collect es)
unfolding collect
collect-IsSorted es = insert_all-IsSorted [] es tt

insert_all-All {ℓ} :
    (P : HostEntry → Type ℓ) (m es : List HostEntry) → All P m → All P es → All P (insert_all m es)
unfolding insert_all
insert_all-All P m [] h k = h
insert_all-All P m (e ∷ es) h (k, ks) = insert_all-All P (insert e m) es (insert-All P e m k h) ks

pub collect-All {ℓ} : (P : HostEntry → Type ℓ) (es : List HostEntry) → All P es → All P (collect es)
unfolding collect
collect-All P es h = insert_all-All P [] es tt h

pub erase_absent :
    (name : Text) (xs : List HostEntry) → contains_key name xs ≡ false → erase name xs ≡ xs
unfolding erase contains_key
erase_absent name [] h = refl
erase_absent name (x ∷ xs) h = ground (arith, erase_absent name xs)
