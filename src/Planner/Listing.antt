-- ===== src/Planner/Listing.antt =====
-- What the entries of a rule's filters list, read off the unions of the planner's sets
-- (runtime/planner/planner.py).
use tdaudiibncba.Common.{
  ◌≡◌, refl, subst, inl, inr, true, Option, List, [], ◌∷◌, Memᴰ, arith, mem-append_cases,
  mem-append_left, mem-append_right, Bool-cases, string_eq, int_eq,
}
use tdaudiibncba.Planner.Model.{FilterSettings, FilterEntry, settings, other}
use tdaudiibncba.Planner.Filters.{listed, union_of, any_bot_flag}

-- Some entry of the filters lists `a` under the key.
pub record Listed {ℓ} {A : Type ℓ} (key : FilterSettings → Option (List A)) (a : A)
    (fs : List FilterEntry) : Type ℓ where
  pub entry : FilterEntry
  pub among : Memᴰ entry fs
  pub named : Memᴰ a (listed key entry)

module _ {ℓ} {A : Type ℓ} (key : FilterSettings → Option (List A)) where
  pub Listed-of_mem : (a : A) (fs : List FilterEntry) → Memᴰ a (union_of key fs) → Listed key a fs
  unfolding union_of
  Listed-of_mem a [] m = elim m [ ]
  Listed-of_mem a (f ∷ fs) m = elim (mem-append_cases (listed key f) (union_of key fs) m) [
    | inl l ↦ record { entry = f; among = Memᴰ.head refl; named = l }
    | inr r ↦
        let ih = Listed-of_mem a fs r in
        record { entry = ih.entry; among = Memᴰ.tail ih.among; named = ih.named }
  ]

  mem_of_entry :
      (a : A) (f : FilterEntry) (fs : List FilterEntry)
      → Memᴰ f fs
      → Memᴰ a (listed key f)
      → Memᴰ a (union_of key fs)
  unfolding union_of
  mem_of_entry a f [] m n = elim m [ ]
  mem_of_entry a f (g ∷ fs) (Memᴰ.head p) n =
      mem-append_left (listed key g) (union_of key fs) (subst (λ h. Memᴰ a (listed key h)) p n)
  mem_of_entry a f (g ∷ fs) (Memᴰ.tail m) n =
      mem-append_right (listed key g) (union_of key fs) (mem_of_entry a f fs m n)

  pub mem_of_Listed : (a : A) (fs : List FilterEntry) → Listed key a fs → Memᴰ a (union_of key fs)
  mem_of_Listed a fs l = mem_of_entry a l.entry fs l.among l.named

pub any_bot_flag_of_mem :
    (f : FilterSettings) (fs : List FilterEntry)
    → Memᴰ (settings f) fs
    → f.exclude_bots ≡ true
    → any_bot_flag fs ≡ true
unfolding any_bot_flag
any_bot_flag_of_mem f [] m h = elim m [ ]
any_bot_flag_of_mem f (g ∷ fs) (Memᴰ.head p) h = rw (← p, h)
any_bot_flag_of_mem f (g ∷ fs) (Memᴰ.tail m) h = ground (arith, any_bot_flag_of_mem f fs m h)

pub record HasBotFlag (fs : List FilterEntry) : Type 0 where
  pub entry : FilterSettings
  pub among : Memᴰ (settings entry) fs
  pub flag : entry.exclude_bots ≡ true

pub HasBotFlag-of_any : (fs : List FilterEntry) → any_bot_flag fs ≡ true → HasBotFlag fs
unfolding any_bot_flag
HasBotFlag-of_any [] h = cc
HasBotFlag-of_any (other ∷ fs) h =
    let ih = HasBotFlag-of_any fs h in
    record { entry = ih.entry; among = Memᴰ.tail ih.among; flag = ih.flag }
HasBotFlag-of_any (settings f ∷ fs) h = elim (Bool-cases f.exclude_bots) [
  | inl on ↦ record { entry = f; among = Memᴰ.head refl; flag = on }
  | inr off ↦
      let ih = HasBotFlag-of_any fs (rw off at h) in
      record { entry = ih.entry; among = Memᴰ.tail ih.among; flag = ih.flag }
]
