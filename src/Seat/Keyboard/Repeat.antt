-- ===== src/Seat/Keyboard/Repeat.antt =====
-- Key repeat: what the keyboard repeats, and when.
use mathlib.Core.Path.{subst}
use wlc.Base.{
  ℕ, ◌<◌, ◌≡◌, inl, inr, refl, sym, ap, ◌∙◌, Bool, true, false, not, some, List, [], ◌∷◌, ◌++◌,
  arith, Bool-cases, count, count-append,
}
use wlc.Chck.{IterPool}
use wlc.Seat.Keys.{update_keys, Unique, contains-count}
use wlc.Seat.Keyboard.{
  Xkb, Clients, Keyboard, keyboard_update, offer_key, seat_handle_key, press_all, keep_all,
  keys_where, cb_repeat, rested,
}

-- The repeat timer is armed exactly while a repeat is to come.
pub record IsArmed (b : Keyboard) : Type 0 where
  pub delay : 0 < b.delay
  pub rate : 0 < b.rate
  pub armed : b.repeat ≡ true → 0 < b.timer
  pub disarmed : b.repeat ≡ false → b.timer ≡ 0

-- A pool that has memory.
abbrev pub HasMemory : IterPool → Type 0
HasMemory c = (keys : List ℕ) (k : ℕ) → (new : List ℕ) × (c.push_back keys k ≡ some new)

update_keys-fresh :
    (c : IterPool) (keys : List ℕ) (k : ℕ)
    → HasMemory c
    → count keys k ≡ 0
    → update_keys c keys k true ≡ (true, keys ++ k ∷ [])
unfolding update_keys
update_keys-fresh c keys k memory fresh =
    let (new, e) = memory keys k in
    rw (contains-count keys k fresh, e, c.push_back_lem keys new k e)

keys-offer_key :
    (x : Xkb) (l : Clients) (k : ℕ) (pressed : Bool) (b : Keyboard)
    → (offer_key x l k pressed b).keys ≡ b.keys
unfolding offer_key
keys-offer_key x l k pressed b = ground arith

keys-seat_handle_key :
    (c : IterPool) (x : Xkb) (l : Clients) (k : ℕ) (pressed : Bool) (b : Keyboard)
    → (seat_handle_key c x l k pressed b).keys ≡ (update_keys c b.keys k pressed).1
unfolding seat_handle_key
keys-seat_handle_key c x l k pressed b = grind (arith, keys-offer_key)

front-back : (xs : List ℕ) (x : ℕ) (ys : List ℕ) → (xs ++ x ∷ []) ++ ys ≡ xs ++ x ∷ ys
front-back [] x ys = refl
front-back (z ∷ xs) x ys = ap (◌∷◌ z) (front-back xs x ys)

fresh-head : (xs : List ℕ) (x : ℕ) (ys : List ℕ) → Unique (xs ++ x ∷ ys) → count xs x ≡ 0
fresh-head xs x ys u = ground (arith, u x, count-append xs (x ∷ ys) x)

keep_all-append :
    (c : IterPool) (ks keys : List ℕ)
    → HasMemory c
    → Unique (keys ++ ks)
    → keep_all c ks keys ≡ keys ++ ks
unfolding keep_all
keep_all-append c [] keys memory u = sym (end keys)
  where
    end : (xs : List ℕ) → xs ++ [] ≡ xs
    end [] = refl
    end (x ∷ xs) = ap (◌∷◌ x) (end xs)
keep_all-append c (k ∷ ks) keys memory u =
    ap (λ (r : Bool × List ℕ). keep_all c ks r.1)
      (update_keys-fresh c keys k memory (fresh-head keys k ks u))
    ∙ keep_all-append c ks (keys ++ k ∷ []) memory (subst Unique (sym (front-back keys k ks)) u)
    ∙ front-back keys k ks

keys-press_all :
    (c : IterPool) (x : Xkb) (l : Clients) (ks : List ℕ) (b : Keyboard)
    → (press_all c x l ks b).keys ≡ keep_all c ks b.keys
unfolding press_all keep_all
keys-press_all c x l [] b = refl
keys-press_all c x l (k ∷ ks) b =
    keys-press_all c x l ks (seat_handle_key c x l k true b)
    ∙ ap (keep_all c ks) (keys-seat_handle_key c x l k true b)

count-split :
    (p : ℕ → Bool) (ks : List ℕ) (k : ℕ)
    → count (keys_where (λ j. not (p j)) ks ++ keys_where p ks) k ≡ count ks k
count-split p [] k = refl
count-split p (j ∷ ks) k = elim (Bool-cases (p j)) [
  | inl y ↦ rw y (
      omega (
        arith,
        count-append (keys_where (λ i. not (p i)) ks) (j ∷ keys_where p ks) k,
        count-append (keys_where (λ i. not (p i)) ks) (keys_where p ks) k,
        count-split p ks k,
      ))
  | inr n ↦ rw n (omega (arith, count-split p ks k))
]

-- A run of the repeat timer, with a keymap, with memory and with no key twice in the list, leaves
-- exactly those keys pressed that were pressed: the keys that do not repeat first, then those that
-- do, each in their old order.
pub keys-cb_repeat :
    (c : IterPool) (x : Xkb) (l : Clients) (b : Keyboard)
    → HasMemory c
    → b.has_keymap ≡ true
    → Unique b.keys
    → ((cb_repeat c x l b).keys
        ≡ keys_where (λ k. not (x.repeats k)) b.keys ++ keys_where x.repeats b.keys)
      × ((k : ℕ) → count (cb_repeat c x l b).keys k ≡ count b.keys k)
unfolding cb_repeat rested
keys-cb_repeat c x l b memory keymap u =
    (all, λ k. ap (λ (ks : List ℕ). count ks k) all ∙ count-split x.repeats b.keys k)
  where
    quiet : List ℕ
    quiet = keys_where (λ k. not (x.repeats k)) b.keys

    loud : List ℕ
    loud = keys_where x.repeats b.keys

    both : Unique (quiet ++ loud)
    both k = omega (arith, u k, count-split x.repeats b.keys k)

    first : Unique quiet
    first k = omega (arith, both k, count-append quiet loud k)

    all : (cb_repeat c x l b).keys ≡ quiet ++ loud
    all = rw keymap (
        keys-press_all c x l loud _
        ∙ ap (keep_all c loud) (keep_all-append c quiet [] memory first)
        ∙ keep_all-append c loud quiet memory both)

-- Where the timer is armed exactly while a repeat is to come, a key that is pressed or released
-- with success cancels that repeat and leaves the timer disarmed.
pub keyboard_update_cancels :
    (c : IterPool) (key : ℕ) (pressed : Bool) (b : Keyboard)
    → IsArmed b
    → (keyboard_update c key pressed b).0 ≡ true
    → ((keyboard_update c key pressed b).1.timer ≡ 0)
      × ((keyboard_update c key pressed b).1.repeat ≡ false)
unfolding keyboard_update
keyboard_update_cancels c key pressed b a e = ground (arith, e, a.disarmed)
