-- ===== src/Lru.antt =====
-- The recency list of moe/expert_stream_source.cpp: a doubly linked list threaded through the
-- arrays cprev_ and cnext_, with chead_ (most recent) and ctail_ (coldest). The index -1 is `none`.
pub mod State
pub mod Segment
pub mod Ends
pub mod Refine
use franken_mo_e_cuda.Prelude.{ℕ, Option, none, some, update}
use State.{Links, update_at, update_end}

unlink_between : Option ℕ → Option ℕ → ℕ → Links → Links
unlink_between pv nx id l = record {
  prev = update (update_at l.prev nx pv) id none;
  next = update (update_at l.next pv nx) id none;
  head = update_end pv l.head nx;
  tail = update_end nx l.tail pv;
}

unfoldable pub lru_unlink : ℕ → Links → Links
unfolding unlink_between
lru_unlink id l = unlink_between (l.prev id) (l.next id) id l

unfoldable pub lru_push_front : ℕ → Links → Links
lru_push_front id l = record {
  prev = update_at (update l.prev id none) l.head (some id);
  next = update l.next id l.head;
  head = some id;
  tail = update_end l.head l.tail (some id);
}

unfoldable pub lru_push_back : ℕ → Links → Links
lru_push_back id l = record {
  prev = update l.prev id l.tail;
  next = update_at (update l.next id none) l.tail (some id);
  head = update_end l.tail l.head (some id);
  tail = some id;
}

-- The list as init() leaves it.
unfoldable pub empty : Links
empty = record { prev = λ _. none; next = λ _. none; head = none; tail = none }
