-- ===== src/Handles.antt =====
-- src/resources/resources.c: handles, by which other parts and the compositor name the objects of the
-- library. A source is a number, as its address; its objects are the slots of its pool. The pools of
-- lib/chck are a parameter: which free slot the next item gets. Constructors and destructors are the
-- components'. Moving a pool in memory changes no address here, so that relocation is left out.
pub mod Outcome
pub mod Create
pub mod Release
mod Tests
use wlc.Base.{
  ℕ, suc, ◌-◌, ◌^◌, ◌≤◌, ◌≡◌, Bool, true, false, ◌&&◌, ◌||◌, Option, none, some, leb, if◌then◌else◌,
  ◌==◌,
}

-- `struct handle`
pub record Handle : Type 0 where
  pub public : ℕ
  pub private : ℕ
  pub source : ℕ

-- The slots of `handles`, and which slots of the pool of each source are taken.
pub record Registry : Type 0 where
  pub handles : ℕ → Option Handle
  pub items : ℕ → ℕ → Bool

-- `chck_pool_add` gives a slot that is not taken; `none` is a refused allocation.
pub record Pool : Type 0 where
  pub add : (ℕ → Bool) → Option ℕ
  pub add_lem : (taken : ℕ → Bool) (i : ℕ) → add taken ≡ some i → taken i ≡ false

abbrev pub is_taken : Registry → ℕ → Bool
is_taken t i = elim (t.handles i) [ none ↦ false | some h ↦ true ]

abbrev pub put_handle : ℕ → Option Handle → Registry → Registry
put_handle i h t = record t { handles = λ x. if i == x then h else t.handles x }

abbrev pub put_item : ℕ → ℕ → Bool → Registry → Registry
put_item source slot b t = record t {
  items = λ s x. if source == s && slot == x then b else t.items s x;
}

-- `(wlc_resource)~0`
abbrev pub no_handle : ℕ
no_handle = 2 ^ 64 - 1

-- What `handle_create` reports of the new handle.
pub record HandleInfo : Type 0 where
  pub public : ℕ
  pub private : ℕ

-- The end of `handle_create`, at the slots `i` of the handle and `h` of the object; the constructor
-- tells by the public number whether it succeeds.
unfoldable pub construct : (ℕ → Bool) → ℕ → ℕ → ℕ → Registry → Option HandleInfo × Registry
construct constructor source i h t =
    let undone : Registry = put_handle i none (put_item source h false t) in
    if leb no_handle i || leb no_handle h
    then (none, undone)
    else if constructor (suc i)
    then (some (record { public = suc i; private = suc h }), t)
    else (none, undone)

-- The object gets a slot of its source, where there is one.
unfoldable pub add_item : (ℕ → Bool) → ℕ → ℕ → Registry → Option ℕ → Option HandleInfo × Registry
unfolding construct
add_item constructor source i t none = (none, put_handle i none t)
add_item constructor source i t (some h) =
    construct constructor source i h (put_item source h true t)

-- The handle gets a slot, still empty, where there is one.
unfoldable pub add_handle :
    Pool → (ℕ → Bool) → ℕ → Registry → Option ℕ → Option HandleInfo × Registry
unfolding add_item
add_handle c constructor source t none = (none, t)
add_handle c constructor source t (some i) =
    add_item constructor source i
      (put_handle i (some (record { public = 0; private = 0; source = 0 })) t)
      (c.add (t.items source))

unfoldable pub handle_create : Pool → (ℕ → Bool) → ℕ → Registry → Option HandleInfo × Registry
unfolding add_handle
handle_create c constructor source t = add_handle c constructor source t (c.add (is_taken t))

unfoldable pub fill_handle : ℕ → Option HandleInfo × Registry → Option HandleInfo × Registry
fill_handle source (none, t) = (none, t)
fill_handle source (some n, t) = (
  some n,
  put_handle (n.public - 1)
      (some (record { public = n.public; private = n.private; source = source })) t,
)

unfoldable pub wlc_handle_create : Pool → (ℕ → Bool) → ℕ → Registry → Option HandleInfo × Registry
unfolding handle_create fill_handle
wlc_handle_create c constructor source t = fill_handle source (handle_create c constructor source t)

-- The destructor of a source may release other handles.
unfoldable pub handle_release : (ℕ → ℕ → Registry → Registry) → Handle → Registry → Registry
handle_release destructor h t =
    let t' : Registry =
      if t.items h.source (h.private - 1) then destructor h.source (h.private - 1) t else t in
    put_handle (h.public - 1) none
      (if h.private == 0 then t else put_item h.source (h.private - 1) false t')

unfoldable pub wlc_handle_release : (ℕ → ℕ → Registry → Registry) → ℕ → Registry → Registry
unfolding handle_release
wlc_handle_release destructor handle t =
    if handle == 0
    then t
    else elim (t.handles (handle - 1)) [ none ↦ t | some h ↦ handle_release destructor h t ]

-- The slot of the object, if the handle is of the named kind and the object is there. `name_of` gives
-- the names of the sources.
unfoldable pub handle_get : (ℕ → ℕ) → Handle → ℕ → Registry → Option (ℕ × ℕ)
handle_get name_of h name t =
    if h.private == 0
    then none
    else if name_of h.source == name
    then (if t.items h.source (h.private - 1) then some (h.source, h.private - 1) else none)
    else none

unfoldable pub convert_from_wlc_handle : (ℕ → ℕ) → ℕ → ℕ → Registry → Option (ℕ × ℕ)
unfolding handle_get
convert_from_wlc_handle name_of handle name t =
    if handle == 0
    then none
    else elim (t.handles (handle - 1)) [ none ↦ none | some h ↦ handle_get name_of h name t ]

-- Every handle has its own object: the handle knows its number, its object is there, and no other
-- handle has it.
pub record IsValid (t : Registry) : Type 0 where
  pub numbered : (i : ℕ) (h : Handle) → t.handles i ≡ some h → h.public ≡ suc i
  pub stored :
      (i : ℕ) (h : Handle)
      → t.handles i ≡ some h
      → (1 ≤ h.private) × (t.items h.source (h.private - 1) ≡ true)
  pub apart :
      (i j : ℕ) (h k : Handle)
      → t.handles i ≡ some h
      → t.handles j ≡ some k
      → h.source ≡ k.source
      → h.private ≡ k.private
      → i ≡ j
