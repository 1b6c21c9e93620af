-- ===== src/Lockfile/Sound.antt =====
-- What a lock file that `resolve` of src/lockfile.rs makes holds.
use binport.Base.{
  some, ok_or-eq-ok, List, [], ◌∷◌, ◌++◌, ◌≡◌, refl, sym, ◌∙◌, ap, subst, Option, ok, map,
  IsDistinct, >>=-eq-ok, ok-injective, ok_or, map_err, append-nil, append_assoc,
}
use binport.Binfile.{Binfile, CopySpec}
use binport.Catalog.Platform
use binport.Catalog.Platform.{Platform}
use binport.Catalog.{Catalog}
use binport.Lockfile.{
  ResolvedTool, ResolvedCopy, unsafe_name, no_source, Identity, same_identity, claim, add_platforms,
  Copies, copied, add_copy, add_copies, start, resolve,
}
use binport.Shell.ToolName.{safe_name}
use binport.Text.{Text}
use binport.Lockfile.Locked.{
  IsSafe, IsLocked, All2, All2-append, wanted_tools, tool_identity, copy_identity, claim-eq-ok,
  map_err-eq-ok, map-snoc, add_platforms-Inv,
}

-- The copy is that of a line of the Binfile, with what the file system has for its source.
pub record IsCopied (locate : Text → Option (Text × Text)) (wanted : CopySpec) (c : ResolvedCopy)
    : Type 0 where
  pub name : c.name ≡ wanted.name
  pub platform : c.platform ≡ Platform.name wanted.platform
  pub there : locate wanted.source ≡ some (c.source, c.sha256)
  pub safe : IsSafe c.name

record InvCopies (locate : Text → Option (Text × Text)) (before : List Identity)
    (asked : List CopySpec) (st : Copies) : Type 0 where
  named : st.identities ≡ before ++ map copy_identity st.copies
  distinct : IsDistinct same_identity st.identities
  copied : All2 (IsCopied locate) asked st.copies

grow_copies-Inv :
    (locate : Text → Option (Text × Text)) (before : List Identity) (asked : List CopySpec)
    (st : Copies) (copy : CopySpec) (source : Text × Text) (identities : List Identity)
    → InvCopies locate before asked st
    → IsCopied locate copy (copied copy source)
    → (identities ≡ st.identities ++ (copy.name, Platform.name copy.platform) ∷ [])
      × IsDistinct same_identity identities
    → InvCopies locate before
        (asked ++ copy ∷ [])
        (record { identities = identities; copies = st.copies ++ copied copy source ∷ [] })
grow_copies-Inv locate before asked st copy source identities inv is_copied (grown, distinct) =
    record {
      named =
          grown
          ∙ ap (λ l. l ++ (copy.name, Platform.name copy.platform) ∷ []) inv.named
          ∙ append_assoc before (map copy_identity st.copies) _
          ∙ ap (λ l. before ++ l) (sym (map-snoc copy_identity st.copies (copied copy source)));
      distinct = distinct;
      copied =
          All2-append (IsCopied locate) asked (copy ∷ []) st.copies (copied copy source ∷ [])
            inv.copied (is_copied, tt);
    }

add_copy-Inv :
    (locate : Text → Option (Text × Text)) (before : List Identity) (asked : List CopySpec)
    (copy : CopySpec) (st : Copies) {st' : Copies}
    → InvCopies locate before asked st
    → add_copy locate copy st ≡ ok st'
    → InvCopies locate before (asked ++ copy ∷ []) st'
unfolding add_copy
add_copy-Inv locate before asked copy st inv h =
    let (name, safe, h1) = >>=-eq-ok (map_err unsafe_name (safe_name copy.name)) _ h in
    let (identities, claimed, h2) = >>=-eq-ok (claim copy.name copy.platform st.identities) _ h1 in
    let (source, there, h3) = >>=-eq-ok (ok_or (locate copy.source) (no_source copy)) _ h2 in
    subst (InvCopies locate before (asked ++ copy ∷ [])) (ok-injective h3) (
      grow_copies-Inv locate before asked st copy source identities inv
        (record {
          name = refl;
          platform = refl;
          there = ok_or-eq-ok (locate copy.source) _ there;
          safe = (name, map_err-eq-ok unsafe_name _ safe);
        })
        (claim-eq-ok copy.name copy.platform st.identities inv.distinct claimed))

add_copies-Inv :
    (locate : Text → Option (Text × Text)) (before : List Identity) (asked specs : List CopySpec)
    (st : Copies) {st' : Copies}
    → InvCopies locate before asked st
    → add_copies locate specs st ≡ ok st'
    → InvCopies locate before (asked ++ specs) st'
unfolding add_copies
add_copies-Inv locate before asked [] st inv h =
    rw (append-nil asked) (subst (InvCopies locate before asked) (ok-injective h) inv)
add_copies-Inv locate before asked (copy ∷ specs) st {st'} inv h =
    let (next, first, h1) = >>=-eq-ok (add_copy locate copy st) _ h in
    subst (λ l. InvCopies locate before l st') (append_assoc asked (copy ∷ []) specs)
      (add_copies-Inv locate before (asked ++ copy ∷ []) specs next
        (add_copy-Inv locate before asked copy st inv first) h1)

-- The lock answers the Binfile line by line: for each platform, in their order, and each of its tools, in
-- their order, the tool that the catalog has; and for each copy, what the file system has. None
-- stands twice for a platform.
pub record IsResolved (catalog : Catalog) (locate : Text → Option (Text × Text)) (spec : Binfile)
    (tools : List ResolvedTool) (copies : List ResolvedCopy) : Type 0 where
  pub distinct : IsDistinct same_identity (map tool_identity tools ++ map copy_identity copies)
  pub locked : All2 (IsLocked catalog) (wanted_tools spec.platforms spec.tools) tools
  pub copied : All2 (IsCopied locate) spec.copies copies

-- When `resolve` succeeds, what it returns has one tool for each platform and tool of the Binfile, in
-- their order, the artifact that the catalog has for the name, the version that is asked for, if one is,
-- and the platform; it has one copy for each copy of the Binfile, in their order, with its name and
-- platform, and the path and hash that the file system has for its source; no tool or copy stands
-- twice for a platform, and the last component of each name is accepted by `safe_tool_name`.
pub resolve-IsResolved :
    (catalog : Catalog) (locate : Text → Option (Text × Text)) (spec : Binfile)
    (tools : List ResolvedTool) (copies : List ResolvedCopy)
    → resolve catalog locate spec ≡ ok (tools, copies)
    → IsResolved catalog locate spec tools copies
unfolding resolve
resolve-IsResolved catalog locate spec tools copies h =
    let (st, first, h1) = >>=-eq-ok (add_platforms catalog spec.tools spec.platforms start) _ h in
    let (done, second, h2) =
      >>=-eq-ok (add_copies locate spec.copies (record { identities = st.identities; copies = [] }))
        _ h1 in
    let same = ok-injective h2 in
    let inv_tools =
      add_platforms-Inv catalog [] spec.tools spec.platforms start
        (record { named = refl; distinct = tt; locked = tt }) first in
    let inv_copies =
      add_copies-Inv locate st.identities [] spec.copies
        (record { identities = st.identities; copies = [] })
        (record {
          named = sym (append-nil st.identities);
          distinct = inv_tools.distinct;
          copied = tt;
        })
        second in
    subst (λ (r : List ResolvedTool × List ResolvedCopy). IsResolved catalog locate spec r.0 r.1)
      same
      (record {
        distinct =
            subst (IsDistinct same_identity)
              (inv_copies.named ∙ ap (λ l. l ++ map copy_identity done.copies) inv_tools.named)
              inv_copies.distinct;
        locked = inv_tools.locked;
        copied = inv_copies.copied;
      })
