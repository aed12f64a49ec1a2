-- ===== src/NameCache.antt =====
-- `Instance_name_cache`, include/sintra/detail/process/instance_name_cache.h: what each of its
-- lock regions does. A name is a number here; the authoritative resolver's answer is an argument.
-- `resolve` is `look_up`, the resolver's answer, and `store`.
pub mod Staleness
use sintra.Base.{ℕ, ◌+◌, ◌%◌, ◌^◌, ◌==◌, Option, none, some, List, [], ◌∷◌, if◌then◌else◌}
use sintra.Ids.{process_of}

pub record NameCache : Type 0 where
  pub names : List (ℕ × ℕ)
  pub revision : ℕ

abbrev pub find : ℕ → List (ℕ × ℕ) → Option ℕ
find name [] = none
find name ((n, iid) ∷ rest) = if n == name then some iid else find name rest

abbrev pub erase_name : ℕ → List (ℕ × ℕ) → List (ℕ × ℕ)
erase_name name [] = []
erase_name name ((n, iid) ∷ rest) =
    if n == name then erase_name name rest else (n, iid) ∷ erase_name name rest

abbrev pub erase_process : ℕ → List (ℕ × ℕ) → List (ℕ × ℕ)
erase_process p [] = []
erase_process p ((n, iid) ∷ rest) =
    if process_of iid == p then erase_process p rest else (n, iid) ∷ erase_process p rest

-- The first region of `resolve`: the cached instance, or the revision to remember.
pub data Lookup : Type 0 where
  hit : (iid : ℕ) → Lookup
  miss : (revision : ℕ) → Lookup

abbrev pub found : Option ℕ → ℕ → Lookup
found none revision = miss revision
found (some iid) revision = hit iid

unfoldable pub look_up : ℕ → NameCache → Lookup
look_up name c = found (find name c.names) c.revision

-- `emplace` keeps an entry that is there.
abbrev pub emplace : Option ℕ → ℕ → ℕ → List (ℕ × ℕ) → List (ℕ × ℕ)
emplace none name iid names = (name, iid) ∷ names
emplace (some old) name iid names = names

-- The second region of `resolve`: the answer, or `none` where it has to be asked for again.
unfoldable pub store : ℕ → ℕ → ℕ → NameCache → Option ℕ × NameCache
store name revision resolved c =
    if revision == c.revision
    then (
      some resolved,
      if resolved == 0
          then c
          else record c { names = emplace (find name c.names) name resolved c.names },
    )
    else (none, c)

-- `++m_revision`
unfoldable pub next_revision : ℕ → ℕ
next_revision r = (r + 1) % 2 ^ 64

unfoldable pub invalidate_name : ℕ → NameCache → NameCache
unfolding next_revision
invalidate_name name c = record {
  names = erase_name name c.names;
  revision = next_revision c.revision;
}

abbrev pub erase_if : Option ℕ → ℕ → ℕ → List (ℕ × ℕ) → List (ℕ × ℕ)
erase_if none name iid names = names
erase_if (some old) name iid names = if old == iid then erase_name name names else names

unfoldable pub invalidate_instance : ℕ → ℕ → NameCache → NameCache
unfolding next_revision
invalidate_instance name iid c = record {
  names =
      if iid == process_of iid
      then erase_process iid c.names
      else erase_if (find name c.names) name iid c.names;
  revision = next_revision c.revision;
}

unfoldable pub clear_names : NameCache → NameCache
unfolding next_revision
clear_names c = record { names = []; revision = next_revision c.revision }

-- The operations that other threads can put between the two regions of a `resolve`.
pub data Invalidation : Type 0 where
  of_name : (name : ℕ) → Invalidation
  of_instance : (name : ℕ) (iid : ℕ) → Invalidation
  of_all : Invalidation

abbrev pub invalidate : Invalidation → NameCache → NameCache
invalidate (of_name name) c = invalidate_name name c
invalidate (of_instance name iid) c = invalidate_instance name iid c
invalidate of_all c = clear_names c

unfoldable pub invalidate_all : List Invalidation → NameCache → NameCache
invalidate_all [] c = c
invalidate_all (x ∷ rest) c = invalidate_all rest (invalidate x c)
