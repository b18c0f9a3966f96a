-- ===== src/ContentCache.antt =====
-- pkg/contentcache/cache.go: whole files under a byte budget, the least recently used go first.
-- A list element is a pointer, `id`, and its value; the map holds the elements themselves.
pub mod Elements
pub mod Valid
pub mod Budget
pub mod Recency
pub mod Refines
pub mod Prefix
pub mod Runs
use rclaude.Prelude.{
  ℕ, zero, suc, ◌+◌, Bool, true, false, ◌||◌, ◌&&◌, Option, none, some, List, [], ◌∷◌, ◌++◌, Text,
  length, starts_with, ◌==◌, nat_eq, text_eq, if◌then◌else◌,
}
use rclaude.Prelude.Int.{ℤ, pos, add64, sub64, ltb_ℤ, leb_ℤ, int_eq}
use rclaude.Prelude.Assoc
use rclaude.Prelude.Assoc.{Assoc}
use rclaude.Normalize
use rclaude.Paths.{slash}

pub record Signature : Type 0 where
  pub size : ℤ
  pub mod_time : ℤ

pub record Entry : Type 0 where
  pub path : Text
  pub sig : Signature
  pub content : List ℕ

-- list.Element
pub record Element : Type 0 where
  pub id : ℕ
  pub value : Entry

pub record Cache : Type 0 where
  pub max_bytes : ℤ
  pub used : ℤ
  pub lru : List Element
  pub entries : Assoc Text Element
  -- the next pointer that an allocation returns
  pub next_id : ℕ

-- item.sig != sig
unfoldable pub sig_beq : Signature → Signature → Bool
sig_beq a b = a.size == b.size && a.mod_time == b.mod_time

-- normalize
unfoldable pub normalize : Text → Text
normalize = Normalize.normalize

-- cloneBytes: a copy has the same bytes
unfoldable pub clone_bytes : List ℕ → List ℕ
clone_bytes content = content

-- matchesPrefix
unfoldable pub matches_prefix : Text → Text → Bool
matches_prefix path prefix =
    if prefix == [] then true else path == prefix || starts_with path (prefix ++ slash ∷ [])

-- New
unfoldable pub new : ℤ → Cache
new max_bytes = record { max_bytes = max_bytes; used = pos 0; lru = []; entries = []; next_id = 0 }

-- list.List.Remove
unfoldable pub list_remove : ℕ → List Element → List Element
list_remove id [] = []
list_remove id (e ∷ l) = if e.id == id then l else e ∷ list_remove id l

-- list.List.Back
unfoldable pub back : List Element → Option Element
back [] = none
back (e ∷ []) = some e
back (e ∷ f ∷ l) = back (f ∷ l)

-- removeElement
unfoldable pub remove_element : Cache → Element → Cache
remove_element c e =
    let used = sub64 c.used (pos (length e.value.content)) in
    record c {
      entries = Assoc.remove e.value.path c.entries;
      lru = list_remove e.id c.lru;
      used = if ltb_ℤ used (pos 0) then pos 0 else used;
    }

-- evictLocked: each round but the last takes one element off the list, so that the length of the
-- list is fuel enough.
unfoldable pub evict_rounds : ℕ → Cache → Cache
evict_rounds zero c = c
evict_rounds (suc fuel) c = elim (ltb_ℤ c.max_bytes c.used) [
  | false ↦ c
  | true ↦ elim (back c.lru) [ none ↦ c | some e ↦ evict_rounds fuel (remove_element c e) ]
]

unfoldable pub evict_locked : Cache → Cache
evict_locked c = evict_rounds (length c.lru) c

-- list.List.MoveToFront
abbrev pub has_id : ℕ → List Element → Bool
has_id id [] = false
has_id id (e ∷ l) = e.id == id || has_id id l

unfoldable pub move_to_front : Element → List Element → List Element
move_to_front e l = if has_id e.id l then e ∷ list_remove e.id l else l

-- if elem, ok := c.entries[key]; ok { c.removeElement(elem) }
unfoldable pub remove_key : Cache → Text → Cache
remove_key c key = elim (Assoc.lookup key c.entries) [ none ↦ c | some e ↦ remove_element c e ]

-- Get
unfoldable pub get : Cache → Text → Signature → Cache × Option (List ℕ)
get c rel_path sig =
    if leb_ℤ c.max_bytes (pos 0)
    then (c, none)
    else elim (Assoc.lookup (normalize rel_path) c.entries) [
      | none ↦ (c, none)
      | some e ↦
          if sig_beq e.value.sig sig
          then (record c { lru = move_to_front e c.lru }, some (clone_bytes e.value.content))
          else (remove_element c e, none)
    ]

-- Invalidate
unfoldable pub invalidate : Cache → Text → Cache
invalidate c rel_path = if leb_ℤ c.max_bytes (pos 0) then c else remove_key c (normalize rel_path)

-- The end of Put, under the lock.
unfoldable pub store : Cache → Text → Signature → List ℕ → Cache
store c key sig content =
    let cleared = remove_key c key in
    let item : Entry = record { path = key; sig = sig; content = clone_bytes content } in
    let elem : Element = record { id = cleared.next_id; value = item } in
    evict_locked (record cleared {
      lru = elem ∷ cleared.lru;
      entries = Assoc.insert key elem cleared.entries;
      used = add64 cleared.used (pos (length content));
      next_id = cleared.next_id + 1;
    })

-- Put
unfoldable pub put : Cache → Text → Signature → List ℕ → Cache × Bool
put c rel_path sig content =
    if leb_ℤ c.max_bytes (pos 0)
    then (c, false)
    else if ltb_ℤ c.max_bytes (pos (length content))
    then (invalidate c (normalize rel_path), false)
    else (store c (normalize rel_path) sig content, true)

-- The loop of InvalidatePrefix over the map as it stands at the start.
unfoldable pub remove_matching : Text → Assoc Text Element → Cache → Cache
remove_matching prefix [] c = c
remove_matching prefix ((path, e) ∷ entries) c =
    remove_matching prefix entries (if matches_prefix path prefix then remove_element c e else c)

-- InvalidatePrefix
unfoldable pub invalidate_prefix : Cache → Text → Cache
invalidate_prefix c rel_path =
    if leb_ℤ c.max_bytes (pos 0) then c else remove_matching (normalize rel_path) c.entries c

-- Clear
unfoldable pub clear : Cache → Cache
clear c = record c { used = pos 0; lru = []; entries = [] }

-- Len
unfoldable pub len : Cache → ℕ
len c = length c.entries
