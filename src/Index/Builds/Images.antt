-- ===== src/Index/Builds/Images.antt =====
-- The image records: a failed append leaves none behind, and the latest one is the latest.
use node_vault.Base.{
  ℕ, Time, ◌≡◌, refl, ap, ◌≤◌, ◌⊎◌, inl, inr, Bool, true, false, ◌&&◌, Option, none, some, List, [],
  ◌∷◌, arith, ltb, length, snoc, All, Bool-cases,
}
use mathlib.Core.List.{Memᴰ}
use node_vault.Index.Schema.{IndexFile, ToolImageRecord}
use node_vault.Index.Errors.{Error, Result, ok, err, not_found}
use node_vault.Index.Sections.{append_new-ok, or_not_found}
use node_vault.Index.Disk.{Codec, Env, World, with_idx}
use node_vault.Index.Save.{save}
use node_vault.Index.Save.Quiet.{reaches_file, changes_memory}
use node_vault.Index.Save.Outcome.{
  persisted, InSync, SaveOutcome, refused, reread, kept_old, written, save-cases,
}
use node_vault.Index.Builds.{
  append_image, pushed, take, with_images, drop_images, undo_image, append_tool_image_record,
  latest, latest_tool_image_record,
}

take-snoc : {A : Type 0} (xs : List A) (x : A) → take (length xs) (snoc xs x) ≡ xs
take-snoc [] x = refl
take-snoc (y ∷ ys) x = ap (λ zs. y ∷ zs) (take-snoc ys x)

append_image-ok :
    (now : Time) (r : ToolImageRecord) (rs : List ToolImageRecord) {rs' : List ToolImageRecord}
    → append_image now r rs ≡ ok rs'
    → rs' ≡ snoc rs (pushed now r)
unfolding append_image
append_image-ok now r rs q = (append_new-ok _ _ _ _ rs q).2

-- The images in memory are those of before, or memory is what the file holds.
abbrev pub NoGhost : Codec → World → World → Type 0
NoGhost c w w' =
    (w'.store.idx.tool_image_records ≡ w.store.idx.tool_image_records)
    ⊎ InSync c w'.store w'.disk.index
    ⊎ (w'.disk.index ≡ some (c.encode_index w'.store.idx))

undo-plain :
    (n : ℕ) (e : Error) (w : World)
    → changes_memory e ≡ false
    → undo_image n (err e, w) ≡ (err e, drop_images n w)
unfolding undo_image
undo-plain n e w h = ground arith

undo-reaches :
    (n : ℕ) (r : Result (Unit {0})) (w : World)
    → reaches_file r ≡ true
    → undo_image n (r, w) ≡ (r, w)
unfolding undo_image
undo-reaches n r w h = ground arith

-- No lookup serves an image record that was not persisted: after AppendToolImageRecord, whatever it
-- answers, the image records in memory are those of before the call, or memory is what the file
-- holds (the append reached it, or the Store read the file again).
pub append_tool_image_record-NoGhost :
    (c : Codec) (env : Env) (r : ToolImageRecord) (w : World)
    → NoGhost c w (append_tool_image_record c env r w).1
unfolding append_tool_image_record undo_image
append_tool_image_record-NoGhost c env r w =
    decided (append_image env.now r w.store.idx.tool_image_records) refl
  where
    n : ℕ
    n = length w.store.idx.tool_image_records

    tried : List ToolImageRecord → World
    tried rs = with_idx (with_images rs w.store.idx) w

    dropped :
        (rs : List ToolImageRecord)
        → append_image env.now r w.store.idx.tool_image_records ≡ ok rs
        → take n rs ≡ w.store.idx.tool_image_records
    dropped rs q =
        rw (append_image-ok env.now r w.store.idx.tool_image_records q)
          (take-snoc w.store.idx.tool_image_records (pushed env.now r))

    saved :
        (rs : List ToolImageRecord)
        → append_image env.now r w.store.idx.tool_image_records ≡ ok rs
        → SaveOutcome c env (tried rs)
        → NoGhost c w (undo_image n (save c env (tried rs))).1
    saved rs q (refused e k p) = rw (p, undo-plain n e (tried rs) k) (inl (dropped rs q))
    saved rs q (reread w' m d s p) = rw p (inr (inl (rw d s)))
    saved rs q (kept_old m p) = rw p (inl (dropped rs q))
    saved rs q (written x m k p) =
        rw (p, undo-reaches n x (persisted c (tried rs)) k) (inr (inr refl))

    decided :
        (m : Result (List ToolImageRecord))
        → append_image env.now r w.store.idx.tool_image_records ≡ m
        → NoGhost c w (append_tool_image_record c env r w).1
    decided (err e) q = rw (q, append_tool_image_record) (inl refl)
    decided (ok rs) q = rw (q, append_tool_image_record) (saved rs q (save-cases c env (tried rs)))

-- What the lookup must answer: a record of the list that passes the test, with no later one, or that
-- no record passes it.
abbrev pub IsLatest :
    (ToolImageRecord → Bool) → List ToolImageRecord → Result ToolImageRecord → Type 0
IsLatest p rs (ok b) =
    Memᴰ b rs × (p b ≡ true) × All (λ r. (p r ≡ false) ⊎ (r.pushed_at ≤ b.pushed_at)) rs
IsLatest p rs (err e) = (e ≡ not_found) × All (λ r. p r ≡ false) rs

-- The loop from a record that is the latest so far.
record From (p : ToolImageRecord → Bool) (b : ToolImageRecord) (rs : List ToolImageRecord)
    (o : Option ToolImageRecord) : Type 0 where
  best : ToolImageRecord
  answer : o ≡ some best
  passes : p best ≡ true
  where_from : (best ≡ b) ⊎ Memᴰ best rs
  no_older : b.pushed_at ≤ best.pushed_at
  newest : All (λ r. (p r ≡ false) ⊎ (r.pushed_at ≤ best.pushed_at)) rs

latest-From :
    (p : ToolImageRecord → Bool) (b : ToolImageRecord) (rs : List ToolImageRecord)
    → p b ≡ true
    → From p b rs (latest p (some b) rs)
unfolding latest
latest-From p b [] h = record {
  best = b;
  answer = refl;
  passes = h;
  where_from = inl refl;
  no_older = omega arith;
  newest = tt;
}
latest-From p b (r ∷ rs) h = elim (Bool-cases (p r && ltb b.pushed_at r.pushed_at)) [
  | inl k ↦
      let next = latest-From p r rs (ground arith) in
      rw k (record {
        best = next.best;
        answer = next.answer;
        passes = next.passes;
        where_from = inr (elim next.where_from [ inl e ↦ Memᴰ.head e | inr m ↦ Memᴰ.tail m ]);
        no_older = (let older = next.no_older in ground arith);
        newest = (inr next.no_older, next.newest);
      })
  | inr k ↦
      let next = latest-From p b rs h in
      rw k (record {
        best = next.best;
        answer = next.answer;
        passes = next.passes;
        where_from = elim next.where_from [ inl e ↦ inl e | inr m ↦ inr (Memᴰ.tail m) ];
        no_older = next.no_older;
        newest = ((let older = next.no_older in ground arith), next.newest);
      })
]

latest-IsLatest :
    (p : ToolImageRecord → Bool) (rs : List ToolImageRecord)
    → IsLatest p rs (or_not_found (latest p none rs))
unfolding latest
latest-IsLatest p [] = (refl, tt)
latest-IsLatest p (r ∷ rs) = elim (Bool-cases (p r)) [
  | inl k ↦
      let best = latest-From p r rs k in
      rw (k, best.answer)
        (
          elim best.where_from [ inl e ↦ Memᴰ.head e | inr m ↦ Memᴰ.tail m ],
          best.passes,
          (inr best.no_older, best.newest),
        )
  | inr k ↦ rw k (onwards k (or_not_found (latest p none rs)) (latest-IsLatest p rs))
]
  where
    onwards : p r ≡ false → (x : Result ToolImageRecord) → IsLatest p rs x → IsLatest p (r ∷ rs) x
    onwards k (ok b) (m, h, a) = (Memᴰ.tail m, h, (inl k, a))
    onwards k (err e) (q, a) = (q, (k, a))

-- The lookups by digest and by reference give a live locator: the answer is a recorded image that
-- passes their test and no recorded image that passes it was pushed later; they answer not-found
-- only when none passes.
pub latest_tool_image_record_lem :
    (p : ToolImageRecord → Bool) (f : IndexFile)
    → IsLatest p f.tool_image_records (latest_tool_image_record p f)
unfolding latest_tool_image_record
latest_tool_image_record_lem p f = latest-IsLatest p f.tool_image_records
