-- ===== src/Host/Alignment.antt =====
-- The tables of a host stay in step (runtime/worker/host.py).
use tdaudiibncba.Common.{
  some_inj, none≢some, ℕ, pos, String, ◌≡◌, refl, sym, ap, ◌∙◌, inl, inr, true, false, Option, none,
  some, ◌==◌, is_some, string_eq, Bool-cases, Option-cases, eq_of_beq,
}
use tdaudiibncba.Common.Dict
use tdaudiibncba.Common.Dict.{Dict, get-put, get-remove}
use tdaudiibncba.Delivery.Policy.{LiveAccount}
use tdaudiibncba.Host.Registry.{Registry, register, set}
use tdaudiibncba.Host.State.{Hosted, AccountRunner, Host, assign_runner}

-- What serves an account: a runner, the transport of the account, and a row of the registry under the
-- runner's generation.
pub record IsServed (runners : Dict String AccountRunner) (routes : Dict String String)
    (registry : Registry) (a : String) : Type 0 where
  pub runner : AccountRunner
  pub runs : Dict.get runners a ≡ some runner
  pub own : runner.account_id ≡ a
  pub live : LiveAccount
  pub registered : Dict.get registry a ≡ some live
  pub live_own : live.account_id ≡ a
  pub same_generation : live.generation ≡ pos runner.generation
  pub routed : Dict.get routes a ≡ some a

-- Every hosted account is served, and only hosted accounts have runners.
pub record IsAligned (hosted : Dict String Hosted) (runners : Dict String AccountRunner)
    (routes : Dict String String) (registry : Registry) : Type 0 where
  pub served :
      (a : String) (x : Hosted) → Dict.get hosted a ≡ some x → IsServed runners routes registry a
  pub only :
      (a : String) (r : AccountRunner)
      → Dict.get runners a ≡ some r
      → is_some (Dict.get hosted a) ≡ true

abbrev pub Aligned : Host → Type 0
Aligned h = IsAligned h.hosted h.runners h.routes h.registry

module _ {V : Type 0} (d : Dict String V) (k j : String) where
  pub get-put_other : (v : V) → (k == j) ≡ false → Dict.get (Dict.put d k v) j ≡ Dict.get d j
  get-put_other v p = rw (get-put d k j v, p)

  pub get-put_same : (v : V) → (k == j) ≡ true → Dict.get (Dict.put d k v) j ≡ some v
  get-put_same v p = rw (get-put d k j v, p)

  pub get-remove_other : (k == j) ≡ false → Dict.get (Dict.remove d k) j ≡ Dict.get d j
  get-remove_other p = rw (get-remove d k j, p)

  pub get-remove_same : (k == j) ≡ true → Dict.get (Dict.remove d k) j ≡ none
  get-remove_same p = rw (get-remove d k j, p)

some_of : {V : Type 0} (o : Option V) {v : V} → o ≡ some v → is_some o ≡ true
some_of (some w) e = refl
some_of none e = cc

module _ (hosted : Dict String Hosted) (runners : Dict String AccountRunner)
    (routes : Dict String String) (registry : Registry) (k : String) where
  -- Taking an account out of all tables.
  pub remove-IsAligned :
      IsAligned hosted runners routes registry
      → IsAligned
          (Dict.remove hosted k)
          (Dict.remove runners k)
          (Dict.remove routes k)
          (Dict.remove registry k)
  remove-IsAligned al = record {
    served = λ a x e. elim (Bool-cases (k == a)) [
      | inl p ↦ absurd (none≢some (sym (get-remove_same hosted k a p) ∙ e))
      | inr p ↦
          let s = al.served a x (sym (get-remove_other hosted k a p) ∙ e) in
          record {
            runner = s.runner;
            runs = get-remove_other runners k a p ∙ s.runs;
            own = s.own;
            live = s.live;
            registered = get-remove_other registry k a p ∙ s.registered;
            live_own = s.live_own;
            same_generation = s.same_generation;
            routed = get-remove_other routes k a p ∙ s.routed;
          }
    ];
    only = λ a r e. elim (Bool-cases (k == a)) [
      | inl p ↦ absurd (none≢some (sym (get-remove_same runners k a p) ∙ e))
      | inr p ↦
          ap is_some (get-remove_other hosted k a p)
          ∙ al.only a r (sym (get-remove_other runners k a p) ∙ e)
    ];
  }

  -- Registering an account that is not hosted.
  pub register-IsAligned :
      (generation : ℕ) (route : String)
      → Dict.get hosted k ≡ none
      → IsAligned hosted runners routes registry
      → IsAligned hosted runners (Dict.put routes k route) (register k generation registry)
  unfolding register
  register-IsAligned generation route free al = record {
    served = λ a x e. elim (Bool-cases (k == a)) [
      | inl p ↦ absurd (none≢some (sym free ∙ ap (Dict.get hosted) (eq_of_beq k a p) ∙ e))
      | inr p ↦
          let s = al.served a x e in
          record {
            runner = s.runner;
            runs = s.runs;
            own = s.own;
            live = s.live;
            registered = get-put_other registry k a _ p ∙ s.registered;
            live_own = s.live_own;
            same_generation = s.same_generation;
            routed = get-put_other routes k a route p ∙ s.routed;
          }
    ];
    only = al.only;
  }

  -- Hosting an account that was registered.
  pub host-IsAligned :
      (generation : ℕ) (x : Hosted) (live : LiveAccount)
      → Dict.get registry k ≡ some live
      → live.account_id ≡ k
      → live.generation ≡ pos generation
      → Dict.get routes k ≡ some k
      → IsAligned hosted runners routes registry
      → IsAligned (Dict.put hosted k x) (assign_runner k generation runners) routes registry
  unfolding assign_runner
  host-IsAligned generation x live e own gen routed al = record {
    served = λ a y h. elim (Bool-cases (k == a)) [
      | inl p ↦
          let same = eq_of_beq k a p in
          record {
            runner = record { account_id = k; generation = generation; halted = none };
            runs = get-put_same runners k a _ p;
            own = same;
            live = live;
            registered = ap (Dict.get registry) (sym same) ∙ e;
            live_own = own ∙ same;
            same_generation = gen;
            routed = ap (Dict.get routes) (sym same) ∙ routed ∙ ap some same;
          }
      | inr p ↦
          let s = al.served a y (sym (get-put_other hosted k a x p) ∙ h) in
          record {
            runner = s.runner;
            runs = get-put_other runners k a _ p ∙ s.runs;
            own = s.own;
            live = s.live;
            registered = s.registered;
            live_own = s.live_own;
            same_generation = s.same_generation;
            routed = s.routed;
          }
    ];
    only = λ a r h. elim (Bool-cases (k == a)) [
      | inl p ↦ some_of _ (get-put_same hosted k a x p)
      | inr p ↦
          ap is_some (get-put_other hosted k a x p)
          ∙ al.only a r (sym (get-put_other runners k a _ p) ∙ h)
    ];
  }

  -- Changing what the registry says of an account, but for its name and generation.
  pub set-IsAligned :
      (change : LiveAccount → LiveAccount)
      → ((row : LiveAccount) → (change row).account_id ≡ row.account_id)
      → ((row : LiveAccount) → (change row).generation ≡ row.generation)
      → IsAligned hosted runners routes registry
      → IsAligned hosted runners routes (set change k registry)
  unfolding set
  set-IsAligned change names keeps al = elim (Option-cases (Dict.get registry k)) [
    | inl e ↦ rw e al
    | inr (row, e) ↦ rw e (record {
      served = λ a x h.
          let s = al.served a x h in
          elim (Bool-cases (k == a)) [
            | inl p ↦
                let same : row ≡ s.live =
                  some_inj (sym e ∙ ap (Dict.get registry) (eq_of_beq k a p) ∙ s.registered) in
                record {
                  runner = s.runner;
                  runs = s.runs;
                  own = s.own;
                  live = change row;
                  registered = get-put_same registry k a _ p;
                  live_own = names row ∙ ap (λ (l : LiveAccount). l.account_id) same ∙ s.live_own;
                  same_generation =
                      keeps row ∙ ap (λ (l : LiveAccount). l.generation) same ∙ s.same_generation;
                  routed = s.routed;
                }
            | inr p ↦ record {
              runner = s.runner;
              runs = s.runs;
              own = s.own;
              live = s.live;
              registered = get-put_other registry k a _ p ∙ s.registered;
              live_own = s.live_own;
              same_generation = s.same_generation;
              routed = s.routed;
            }
          ];
      only = al.only;
    })
  ]
