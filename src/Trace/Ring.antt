-- ===== src/Trace/Ring.antt =====
-- src/logic/cycle_trace.cpp, `ringPush` and `newestIndex`: a ring over any record, and the history
-- that it shows.
use bustaferl.Prelude.{
  ℕ, ◌+◌, ◌-◌, ◌%◌, ◌≤◌, ◌<◌, ◌≡◌, List, Option, none, some, ltb, leb, if◌then◌else◌, length,
  get_elem?, set,
}

pub record Ring (A : Type 0) : Type 0 where
  pub buf : List A
  pub head : ℕ  -- uint8_t
  pub count : ℕ  -- uint8_t

-- `((a - b) % capacity + capacity) % capacity` over int, whose % rounds towards zero.
unfoldable pub wrap_index : ℕ → ℕ → ℕ → ℕ
wrap_index capacity a b =
    if leb b a
    then ((a - b) % capacity + capacity) % capacity
    else (capacity - (b - a) % capacity) % capacity

-- The source's -1 is `none`; an index is never negative here.
unfoldable pub newest_index : ℕ → ℕ → ℕ → ℕ → Option ℕ
newest_index head count capacity idx =
    if leb count idx then none else some (wrap_index capacity head (1 + idx))

module _ {A : Type 0} where
  unfoldable pub ring_push : ℕ → Ring A → A → Ring A
  ring_push capacity r rec = record {
    buf = set r.buf r.head rec;
    head = (r.head + 1) % capacity % 256;
    count = if ltb r.count capacity then (r.count + 1) % 256 else r.count;
  }

  abbrev pub cell : List A → Option ℕ → Option A
  cell buf none = none
  cell buf (some i) = get_elem? buf i

  unfoldable pub ring_at : ℕ → Ring A → ℕ → Option A
  unfolding newest_index wrap_index
  ring_at capacity r idx = cell r.buf (newest_index r.head r.count capacity idx)

  pub record IsRing (capacity : ℕ) (r : Ring A) : Type 0 where
    pub sized : length r.buf ≡ capacity
    pub head_in : r.head < capacity
    pub count_in : r.count ≤ capacity
