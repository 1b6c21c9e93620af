-- ===== src/Lockfile/Locked.antt =====
-- The tools that `resolve` of src/lockfile.rs locks.

use binport.Base.{
  append-nil, append_assoc, List, [], ◌∷◌, ◌++◌, ◌≡◌, refl, sym, ap, subst, some, Result, ok, err,
  map, IsDistinct, snoc-IsDistinct, >>=-eq-ok, passed, ok-injective, ok_or, ok_or-eq-ok, map_err,
}
use binport.Binfile.{ToolSpec}
use binport.Catalog.Platform
use binport.Catalog.Platform.{Platform}
use binport.Catalog.Served.{artifact-platform}
use binport.Catalog.{Catalog, Artifact, artifact}
use binport.Lockfile.{
  ResolvedTool, ResolvedCopy, no_artifact, unsafe_name, duplicate, Identity, same_identity, claim,
  locked, Tools, add_tool, add_tools, add_platforms,
}
use binport.Shell.ToolName.{safe_name}
use binport.Text.Order.{equal_comm}
use binport.Text.{Text}

-- The file name in the text is one that `safe_tool_name` accepts.
abbrev pub IsSafe : Text → Type 0
IsSafe path = (name : Text) × (safe_name path ≡ ok name)

-- The tool is the one that the catalog has for what a line of the Binfile asks for, on a platform: it has the
-- version that the line names, when it names one.
pub record IsLocked (catalog : Catalog) (wanted : Platform × ToolSpec) (t : ResolvedTool)
    : Type 0 where
  pub from : Artifact
  pub there : artifact catalog wanted.1.name wanted.1.version wanted.0 ≡ some from
  pub same : t ≡ locked from
  pub safe : IsSafe t.name

-- Two lists of one length whose elements are related, one by one.
abbrev pub All2 : {A B : Type 0} → (A → B → Type 0) → List A → List B → Type 0
All2 R [] [] = Unit
All2 R [] (y ∷ ys) = ⊥
All2 R (x ∷ xs) [] = ⊥
All2 R (x ∷ xs) (y ∷ ys) = R x y × All2 R xs ys

pub All2-append :
    {A B : Type 0} (R : A → B → Type 0) (xs xs' : List A) (ys ys' : List B)
    → All2 R xs ys
    → All2 R xs' ys'
    → All2 R (xs ++ xs') (ys ++ ys')
All2-append R [] xs' [] ys' h k = k
All2-append R [] xs' (y ∷ ys) ys' h k = elim h [ ]
All2-append R (x ∷ xs) xs' [] ys' h k = elim h [ ]
All2-append R (x ∷ xs) xs' (y ∷ ys) ys' (r, h) k = (r, All2-append R xs xs' ys ys' h k)

-- What a Binfile asks for on a platform, and on each of its platforms.
abbrev pub wanted_on : Platform → List ToolSpec → List (Platform × ToolSpec)
wanted_on platform specs = map (λ spec. (platform, spec)) specs

abbrev pub wanted_tools : List Platform → List ToolSpec → List (Platform × ToolSpec)
wanted_tools [] specs = []
wanted_tools (platform ∷ platforms) specs = wanted_on platform specs ++ wanted_tools platforms specs

abbrev pub tool_identity : ResolvedTool → Identity
tool_identity t = (t.name, t.platform)

abbrev pub copy_identity : ResolvedCopy → Identity
copy_identity c = (c.name, c.platform)

pub same_identity_comm : (i j : Identity) → same_identity i j ≡ same_identity j i
same_identity_comm (n, p) (m, q) = rw (equal_comm n m, equal_comm p q) refl

pub claim-eq-ok :
    (name : Text) (platform : Platform) (identities : List Identity) {out : List Identity}
    → IsDistinct same_identity identities
    → claim name platform identities ≡ ok out
    → (out ≡ identities ++ (name, Platform.name platform) ∷ []) × IsDistinct same_identity out
unfolding claim
claim-eq-ok name platform identities distinct h =
    let (new, done) = passed _ (duplicate name platform) _ h in
    let same = ok-injective done in
    (
      sym same,
      subst (IsDistinct same_identity) same (
          snoc-IsDistinct same_identity same_identity_comm identities (name, Platform.name platform)
            distinct new),
    )

pub map_err-eq-ok :
    {E F : Type 0} {A : Type 0} (f : E → F) (r : Result E A) {a : A} → map_err f r ≡ ok a → r ≡ ok a
map_err-eq-ok f (ok a) h = cc
map_err-eq-ok f (err e) h = cc

pub map-snoc :
    {A B : Type 0} (f : A → B) (xs : List A) (y : A) → map f (xs ++ y ∷ []) ≡ map f xs ++ f y ∷ []
map-snoc f [] y = refl
map-snoc f (x ∷ xs) y = ap (λ l. f x ∷ l) (map-snoc f xs y)

-- `asked` is what the tools so far were asked for.
pub record InvTools (catalog : Catalog) (asked : List (Platform × ToolSpec)) (st : Tools)
    : Type 0 where
  pub named : st.identities ≡ map tool_identity st.tools
  pub distinct : IsDistinct same_identity st.identities
  pub locked : All2 (IsLocked catalog) asked st.tools

grow-Inv :
    (catalog : Catalog) (asked : List (Platform × ToolSpec)) (platform : Platform) (spec : ToolSpec)
    (st : Tools) (a : Artifact) (identities : List Identity)
    → InvTools catalog asked st
    → a.platform ≡ platform
    → IsLocked catalog (platform, spec) (locked a)
    → (identities ≡ st.identities ++ (a.tool, Platform.name platform) ∷ [])
      × IsDistinct same_identity identities
    → InvTools catalog
        (asked ++ (platform, spec) ∷ [])
        (record { identities = identities; tools = st.tools ++ locked a ∷ [] })
grow-Inv catalog asked platform spec st a identities inv on_it is_locked (grown, distinct) =
    record {
      named = rw (map-snoc tool_identity st.tools (locked a), ← inv.named, on_it) grown;
      distinct = distinct;
      locked =
          All2-append (IsLocked catalog) asked ((platform, spec) ∷ []) st.tools (locked a ∷ [])
            inv.locked (is_locked, tt);
    }

add_tool-Inv :
    (catalog : Catalog) (asked : List (Platform × ToolSpec)) (platform : Platform) (spec : ToolSpec)
    (st : Tools) {st' : Tools}
    → InvTools catalog asked st
    → add_tool catalog platform spec st ≡ ok st'
    → InvTools catalog (asked ++ (platform, spec) ∷ []) st'
unfolding add_tool
add_tool-Inv catalog asked platform spec st inv h =
    let (a, wanted, h1) =
      >>=-eq-ok
        (ok_or (artifact catalog spec.name spec.version platform) (no_artifact spec platform)) _
        h in
    let (name, safe, h2) = >>=-eq-ok (map_err unsafe_name (safe_name a.tool)) _ h1 in
    let (identities, claimed, h3) = >>=-eq-ok (claim a.tool platform st.identities) _ h2 in
    let there = ok_or-eq-ok (artifact catalog spec.name spec.version platform) _ wanted in
    subst (InvTools catalog (asked ++ (platform, spec) ∷ [])) (ok-injective h3) (
      grow-Inv catalog asked platform spec st a identities inv
        (artifact-platform catalog spec.name spec.version platform a there)
        (record {
          from = a;
          there = there;
          same = refl;
          safe = (name, map_err-eq-ok unsafe_name _ safe);
        })
        (claim-eq-ok a.tool platform st.identities inv.distinct claimed))

add_tools-Inv :
    (catalog : Catalog) (asked : List (Platform × ToolSpec)) (platform : Platform)
    (specs : List ToolSpec) (st : Tools) {st' : Tools}
    → InvTools catalog asked st
    → add_tools catalog platform specs st ≡ ok st'
    → InvTools catalog (asked ++ wanted_on platform specs) st'
unfolding add_tools
add_tools-Inv catalog asked platform [] st inv h =
    rw (append-nil asked) (subst (InvTools catalog asked) (ok-injective h) inv)
add_tools-Inv catalog asked platform (spec ∷ specs) st {st'} inv h =
    let (next, first, h1) = >>=-eq-ok (add_tool catalog platform spec st) _ h in
    subst (λ l. InvTools catalog l st') (append_assoc asked _ (wanted_on platform specs))
      (add_tools-Inv catalog (asked ++ (platform, spec) ∷ []) platform specs next
        (add_tool-Inv catalog asked platform spec st inv first) h1)

pub add_platforms-Inv :
    (catalog : Catalog) (asked : List (Platform × ToolSpec)) (specs : List ToolSpec)
    (platforms : List Platform) (st : Tools) {st' : Tools}
    → InvTools catalog asked st
    → add_platforms catalog specs platforms st ≡ ok st'
    → InvTools catalog (asked ++ wanted_tools platforms specs) st'
unfolding add_platforms
add_platforms-Inv catalog asked specs [] st inv h =
    rw (append-nil asked) (subst (InvTools catalog asked) (ok-injective h) inv)
add_platforms-Inv catalog asked specs (platform ∷ platforms) st {st'} inv h =
    let (next, first, h1) = >>=-eq-ok (add_tools catalog platform specs st) _ h in
    subst (λ l. InvTools catalog l st')
      (append_assoc asked (wanted_on platform specs) (wanted_tools platforms specs))
      (add_platforms-Inv catalog (asked ++ wanted_on platform specs) specs platforms next
        (add_tools-Inv catalog asked platform specs st inv first) h1)
