-- ===== src/Heapqueue/Contents.antt =====
-- What a queue holds, whatever the order: how often each key stands in it.
use boris.Prelude.{once, occurrences, ℕ, ◌+◌, ◌≤◌, ◌<◌}
use boris.Heapqueue.{Heapqueue}

-- a multiset of keys
abbrev pub Contents : Type 0
Contents = ℕ → ℕ

-- one more `k`
abbrev pub add : ℕ → Contents → Contents
add k m = λ x. m x + once k x

abbrev pub IsLeast : ℕ → Contents → Type 0
IsLeast k m = (0 < m k) × ((x : ℕ) → 0 < m x → k ≤ x)

abbrev pub contents : Heapqueue → Contents
contents q = occurrences q.heap q.heap_len
