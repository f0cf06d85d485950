-- ===== src/Planner/Admission.antt =====
-- The filter gate admits exactly the events that its four rules allow (runtime/planner/planner.py).
use tdaudiibncba.Common.{
  ℤ, String, ◌≡◌, refl, ◌↔◌, inl, inr, true, false, ◌&&◌, Option, none, some, List, [], ◌∷◌, Memᴰ,
  arith, Option-cases, contains, contains_of_mem, mem_of_contains, Bool-cases, string_eq, int_eq,
}
use tdaudiibncba.Planner.Model.{SourceEvent, FilterSettings, FilterEntry, settings, RuleSnapshot}
use tdaudiibncba.Planner.Filters.{
  union_of, any_bot_flag, excludes_bots, sender_whitelist, media_whitelist, sender_blacklist,
  or_default, passes_filters, nonempty, sender_in, outside, outside_kinds,
}
use tdaudiibncba.Planner.Listing.{
  Listed, Listed-of_mem, mem_of_Listed, any_bot_flag_of_mem, HasBotFlag-of_any,
}

-- The empty union turns a whitelist off; the others are searched.
abbrev Allows {ℓ} :
    {A : Type ℓ} → (FilterSettings → Option (List A)) → A → List FilterEntry → Type ℓ
Allows {A = A} key a fs = (b : A) → Listed key b fs → Listed key a fs

-- What the four rules of the gate ask of an event.
pub record IsAdmitted (event : SourceEvent) (rule : RuleSnapshot) : Type 0 where
  pub not_a_bot :
      (f : FilterSettings)
      → Memᴰ (settings f) rule.filters
      → f.exclude_bots ≡ true
      → event.sender_is_bot ≡ false
  pub not_blocked :
      (i : ℤ) → event.sender_id ≡ some i → ¬ Listed (λ f. f.blocked_sender_ids) i rule.filters
  pub whitelisted :
      (j : ℤ)
      → Listed (λ f. f.sender_user_ids) j rule.filters
      → (i : ℤ) × (event.sender_id ≡ some i) × Listed (λ f. f.sender_user_ids) i rule.filters
  pub kind_allowed : Allows (λ f. f.media_kinds) (or_default event.media_kind "text") rule.filters

-- The gate by its four tests.
record PassesTests (event : SourceEvent) (rule : RuleSnapshot) : Type 0 where
  bots : (excludes_bots rule && event.sender_is_bot) ≡ false
  blocked : sender_in event.sender_id (sender_blacklist rule) ≡ false
  senders : outside (sender_whitelist rule) event.sender_id ≡ false
  kinds : outside_kinds (media_whitelist rule) (or_default event.media_kind "text") ≡ false

passes_filters_iff_tests :
    (event : SourceEvent) (rule : RuleSnapshot)
    → (passes_filters event rule ≡ true) ↔ PassesTests event rule
unfolding passes_filters
passes_filters_iff_tests event rule = (λ h. ground arith, λ t. ground arith)

-- A whitelist test, on and off.
inside_of_test :
    (ids : List ℤ) (sender : Option ℤ)
    → outside (nonempty ids) sender ≡ false
    → (j : ℤ) → Memᴰ j ids
    → (i : ℤ) × (sender ≡ some i) × Memᴰ i ids
inside_of_test [] sender h j m = elim m [ ]
inside_of_test (x ∷ xs) none h j m = cc
inside_of_test (x ∷ xs) (some i) h j m = (i, refl, mem_of_contains i (x ∷ xs) (ground arith))

test_of_inside :
    (ids : List ℤ) (sender : Option ℤ)
    → ((j : ℤ) → Memᴰ j ids → (i : ℤ) × (sender ≡ some i) × Memᴰ i ids)
    → outside (nonempty ids) sender ≡ false
test_of_inside [] sender h = refl
test_of_inside (x ∷ xs) sender h =
    let (i, e, m) = h x (Memᴰ.head refl) in rw (e, contains_of_mem i (x ∷ xs) m)

kind_of_test :
    (kinds : List String) (kind : String)
    → outside_kinds (nonempty kinds) kind ≡ false
    → (k : String) → Memᴰ k kinds
    → Memᴰ kind kinds
kind_of_test [] kind h k m = elim m [ ]
kind_of_test (x ∷ xs) kind h k m = mem_of_contains kind (x ∷ xs) (ground arith)

test_of_kind :
    (kinds : List String) (kind : String)
    → ((k : String) → Memᴰ k kinds → Memᴰ kind kinds)
    → outside_kinds (nonempty kinds) kind ≡ false
test_of_kind [] kind h = refl
test_of_kind (x ∷ xs) kind h = rw (contains_of_mem kind (x ∷ xs) (h x (Memᴰ.head refl)))

IsAdmitted-of_tests :
    (event : SourceEvent) (rule : RuleSnapshot) → PassesTests event rule → IsAdmitted event rule
unfolding excludes_bots sender_blacklist sender_whitelist media_whitelist
IsAdmitted-of_tests event rule t = record {
  not_a_bot = λ f m flag. ground (arith, any_bot_flag_of_mem f rule.filters m flag, t.bots);
  not_blocked = λ i e l. cc (
    contains_of_mem i _ (mem_of_Listed (λ f. f.blocked_sender_ids) i rule.filters l),
    (rw e at t.blocked),
  );
  whitelisted = λ j l.
      let (i, e, m) =
        inside_of_test _ event.sender_id t.senders j
          (mem_of_Listed (λ f. f.sender_user_ids) j rule.filters l) in
      (i, e, Listed-of_mem (λ f. f.sender_user_ids) i rule.filters m);
  kind_allowed = λ k l.
      Listed-of_mem (λ f. f.media_kinds) _ rule.filters
        (kind_of_test _ _ t.kinds k (mem_of_Listed (λ f. f.media_kinds) k rule.filters l));
}

blocked_test :
    (event : SourceEvent) (rule : RuleSnapshot)
    → IsAdmitted event rule
    → sender_in event.sender_id (sender_blacklist rule) ≡ false
unfolding sender_blacklist
blocked_test event rule a = elim (Option-cases event.sender_id) [
  | inl e ↦ rw e
  | inr (i, e) ↦
      rw e (elim (Bool-cases (contains (union_of (λ f. f.blocked_sender_ids) rule.filters) i)) [
        | inl blocked ↦ absurd (
            a.not_blocked i e (
              Listed-of_mem (λ f. f.blocked_sender_ids) i rule.filters
                (mem_of_contains i _ blocked)))
        | inr free ↦ free
      ])
]

bot_test :
    (event : SourceEvent) (rule : RuleSnapshot)
    → IsAdmitted event rule
    → (excludes_bots rule && event.sender_is_bot) ≡ false
unfolding excludes_bots
bot_test event rule a = elim (Bool-cases (any_bot_flag rule.filters)) [
  | inl on ↦
      let b = HasBotFlag-of_any rule.filters on in rw (on, a.not_a_bot b.entry b.among b.flag)
  | inr off ↦ rw off
]

tests_of_IsAdmitted :
    (event : SourceEvent) (rule : RuleSnapshot) → IsAdmitted event rule → PassesTests event rule
unfolding sender_whitelist media_whitelist
tests_of_IsAdmitted event rule a = record {
  bots = bot_test event rule a;
  blocked = blocked_test event rule a;
  senders = test_of_inside _ event.sender_id (λ j m.
      let (i, e, l) = a.whitelisted j (Listed-of_mem (λ f. f.sender_user_ids) j rule.filters m) in
      (i, e, mem_of_Listed (λ f. f.sender_user_ids) i rule.filters l));
  kinds = test_of_kind _ _ (λ k m.
      mem_of_Listed (λ f. f.media_kinds) _ rule.filters
        (a.kind_allowed k (Listed-of_mem (λ f. f.media_kinds) k rule.filters m)));
}

-- The gate passes a new message exactly if the rule admits it: it is not a bot's where an entry of
-- the filters excludes bots, its sender is listed by no blacklist, and where an entry whitelists
-- senders or kinds of media, some entry lists the sender or the kind ("text" where it has none).
pub passes_filters_iff :
    (event : SourceEvent) (rule : RuleSnapshot)
    → (passes_filters event rule ≡ true) ↔ IsAdmitted event rule
passes_filters_iff event rule = (
  λ h. IsAdmitted-of_tests event rule ((passes_filters_iff_tests event rule).0 h),
  λ a. (passes_filters_iff_tests event rule).1 (tests_of_IsAdmitted event rule a),
)
