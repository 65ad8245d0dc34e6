-- ===== src/Timeline.antt =====
-- What src/events/failover-log.ts and src/decisions/decision-log.ts share: a log of entries with an
-- ISO 8601 time, queried by an inclusive range of times. Times are compared as texts.
use whyrouted.Prelude.{
  String, str_lt, str_lt-IsWeakOrder, Bool, true, not, ◌&&◌, Option, none, some, List, filter, sort,
  sort-perm, sort-IsSorted, sort_of_IsSorted, filter-IsSorted, IsSorted, IsWeakOrder, ◌≡◌,
}
use mathlib.Core.List.{Perm}

pub record Range : Type 0 where
  pub from : Option String
  pub to : Option String

-- `range.from === undefined || at >= range.from`, and the same for `to`.
abbrev pub is_after : Option String → String → Bool
is_after none at = true
is_after (some from) at = not (str_lt at from)

abbrev pub is_before : Option String → String → Bool
is_before none at = true
is_before (some to) at = not (str_lt to at)

abbrev pub in_range : Range → String → Bool
in_range range at = is_after range.from at && is_before range.to at

module _ {ℓ} {A : Type ℓ} (time : A → String) where
  abbrev pub earlier : A → A → Bool
  earlier a b = str_lt (time a) (time b)

  abbrev pub within : Range → A → Bool
  within range a = in_range range (time a)

  -- `.filter(...).sort((a, b) => (a.at < b.at ? -1 : a.at > b.at ? 1 : 0))`
  unfoldable pub query : Range → List A → List A
  query range entries = sort earlier (filter (within range) entries)

  pub earlier-IsWeakOrder : IsWeakOrder earlier
  earlier-IsWeakOrder = record {
    asym = λ a b. str_lt-IsWeakOrder.asym (time a) (time b);
    neg_trans = λ a b c. str_lt-IsWeakOrder.neg_trans (time a) (time b) (time c);
  }

  pub query-IsSorted : (range : Range) (entries : List A) → IsSorted earlier (query range entries)
  unfolding query
  query-IsSorted range entries =
      sort-IsSorted earlier earlier-IsWeakOrder (filter (within range) entries)

  pub query-perm :
      (range : Range) (entries : List A)
      → Perm (query range entries) (filter (within range) entries)
  unfolding query
  query-perm range entries = sort-perm earlier (filter (within range) entries)

  -- Entries that were recorded in the order of their times come back as they were recorded.
  pub query_of_IsSorted :
      (range : Range) (entries : List A)
      → IsSorted earlier entries
      → query range entries ≡ filter (within range) entries
  unfolding query
  query_of_IsSorted range entries s =
      sort_of_IsSorted earlier (filter (within range) entries)
        (filter-IsSorted earlier (within range) entries s)
