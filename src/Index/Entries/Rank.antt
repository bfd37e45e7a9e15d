-- ===== src/Index/Entries/Rank.antt =====
-- pkg/index/store.go, rankToolProfileReferrers: the referrers of one image, most recent first, and
-- which of them may be collected. `sort.SliceStable` is an insertion sort, which is stable.
pub mod Laws
use Prim.Native.Nat.{Ordering}
use Prim.Native.String.{compare}
use node_vault.Base.{
  ℕ, suc, ◌+◌, Time, String, Bool, true, false, not, Option, none, some, List, [], ◌∷◌, ltb, eqb,
  if◌then◌else◌, snoc, find_first,
}
use node_vault.Index.Schema.{
  ToolProfileReferrer, ReferrerLifecycleStatus, is_gc_candidate,
  default_tool_profile_referrer_retain,
}

-- `s < t` on Go strings: by bytes, which for UTF-8 is by characters.
abbrev pub text_ltb : String → String → Bool
text_ltb s t = elim (compare s t) [ Ordering.lt ↦ true | _ ↦ false ]

-- The comparison of the sort: latest validation, then latest observation, then smallest digest.
unfoldable pub before : ToolProfileReferrer → ToolProfileReferrer → Bool
before a b =
    if not (eqb a.validated_at b.validated_at)
    then ltb b.validated_at a.validated_at
    else if not (eqb a.observed_at b.observed_at)
    then ltb b.observed_at a.observed_at
    else text_ltb a.digest b.digest

-- Ties stay in the order in which they came.
unfoldable pub insert : ToolProfileReferrer → List ToolProfileReferrer → List ToolProfileReferrer
insert x [] = x ∷ []
insert x (y ∷ ys) = if before y x then y ∷ insert x ys else x ∷ (y ∷ ys)

unfoldable pub sort : List ToolProfileReferrer → List ToolProfileReferrer
sort [] = []
sort (x ∷ xs) = insert x (sort xs)

-- The body of the marking loop at index `i`.
unfoldable pub mark : Time → ℕ → ToolProfileReferrer → ToolProfileReferrer
mark now i r =
    if ltb i default_tool_profile_referrer_retain
    then record r {
      rank = i + 1;
      lifecycle_status = ReferrerLifecycleStatus.active;
      gc_reason = "";
      marked_at = 0;
    }
    else record r {
      rank = i + 1;
      lifecycle_status = ReferrerLifecycleStatus.gc_candidate;
      gc_reason = "retained_limit_exceeded";
      marked_at = if is_gc_candidate r.lifecycle_status then r.marked_at else now;
    }

unfoldable pub mark_from : Time → ℕ → List ToolProfileReferrer → List ToolProfileReferrer
mark_from now i [] = []
mark_from now i (r ∷ rs) = mark now i r ∷ mark_from now (suc i) rs

-- `rankToolProfileReferrers` on the history with the new referrer appended.
unfoldable pub rank_tool_profile_referrers :
    Time → List ToolProfileReferrer → ToolProfileReferrer → List ToolProfileReferrer
rank_tool_profile_referrers now refs ref = mark_from now 0 (sort (snoc refs ref))

-- The digest of the referrer of rank 1, where there is one.
unfoldable pub top_digest : String → List ToolProfileReferrer → String
top_digest old refs = elim (find_first (λ r. eqb r.rank 1) refs) [ none ↦ old | some r ↦ r.digest ]
