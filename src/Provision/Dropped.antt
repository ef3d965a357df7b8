-- ===== src/Provision/Dropped.antt =====
-- The `finally` of `_real_task` in core/services/provisioning_orchestrator.py.
use mathlib.Core.List.{append-nil}
use clusterone.Prelude.{
  All, Bool-cases, List, String, [], ap, eq_refl, false, inl, inr, refl, sym, true, ℕ, ◌++◌, ◌==◌,
  ◌∙◌, ◌∷◌, ◌≡◌,
}
use clusterone.Exec.{Result, err, ok}
use clusterone.Models.{Credentials, ServerInfo}
use clusterone.Plugins.{Plugin}
use clusterone.Exec.Triples.{After, raises, returns}
use clusterone.Provision.{Config, Configs, pop_config, store_config}
use clusterone.Provision.Yard.{IsoRow, Order, Request, Setting, Yard}
use clusterone.Provision.Task.{drop_config, stored_install}
use clusterone.Provision.Trail.{Ended, Sent, asked, sent, unasked}
use clusterone.Provision.Gate.{install-Ended}

-- No rendered configuration is kept under the token.
abbrev pub Unused : String → Configs → Type 0
Unused token configs = All (λ (c : Config). (c.token == token) ≡ false) configs

pop-Unused :
    (token : String) (configs : Configs) → Unused token configs → pop_config token configs ≡ configs
unfolding pop_config
pop-Unused token [] h = refl
pop-Unused token (c ∷ cs) (e, h) = rw e (ap (λ xs. c ∷ xs) (pop-Unused token cs h))

pop-snoc :
    (token : String) (xs : Configs) (c : Config)
    → (c.token == token) ≡ true
    → pop_config token (xs ++ c ∷ []) ≡ pop_config token xs
unfolding pop_config
pop-snoc token [] c e = rw e
pop-snoc token (x ∷ xs) c e =
    let rest = pop-snoc token xs c e in
    elim (Bool-cases (x.token == token)) [
      | inl hit ↦ rw hit rest
      | inr miss ↦ rw miss (ap (λ ys. x ∷ ys) rest)
    ]

pop-store :
    (now : ℕ) (token body : String) (configs : Configs)
    → Unused token configs
    → pop_config token (store_config now token body configs) ≡ configs
unfolding store_config
pop-store now token body configs h =
    pop-snoc token (pop_config token configs) _ (eq_refl token)
    ∙ ap (pop_config token) (pop-Unused token configs h)
    ∙ pop-Unused token configs h

drop_config-Sent :
    (s : Setting) (plugin : Plugin) (info : ServerInfo) (creds : Credentials) (base : List Order)
    (here left : Configs) (rs : List Request) (w : Yard)
    → pop_config s.token here ≡ left
    → Sent s plugin info creds base here rs w
    → Sent s plugin info creds base left rs (record w { configs = pop_config s.token w.configs })
drop_config-Sent s plugin info creds base here left rs w q (sent x c) =
    sent x (ap (pop_config s.token) c ∙ q)

dropped-Ended :
    (s : Setting) (plugin : Plugin) (info : ServerInfo) (creds : Credentials) (id : ℕ)
    (iso : IsoRow) (base : List Order) (here left : Configs) (r : Result (Unit {0})) (w : Yard)
    → pop_config s.token here ≡ left
    → Ended s plugin info creds id base here iso r w
    → Ended s plugin info creds id base left iso r
        (record w { configs = pop_config s.token w.configs })
dropped-Ended s plugin info creds id iso base here left _ _ q (unasked e w h) =
    unasked e _ (drop_config-Sent s plugin info creds base here left _ w q h)
dropped-Ended s plugin info creds id iso base here left _ _ q (asked url rs r w p t h) =
    asked url rs r _ p t (drop_config-Sent s plugin info creds base here left _ w q h)

drop_config-Ended :
    (s : Setting) (plugin : Plugin) (info : ServerInfo) (creds : Credentials) (id : ℕ)
    (iso : IsoRow) (base : List Order) (here left : Configs) (x : Result (Unit {0}) × Yard)
    → pop_config s.token here ≡ left
    → After
        (λ _. Ended s plugin info creds id base here iso (ok tt))
        (λ e. Ended s plugin info creds id base here iso (err e))
        x
    → After
        (λ _. Ended s plugin info creds id base left iso (ok tt))
        (λ e. Ended s plugin info creds id base left iso (err e))
        (drop_config s id plugin info creds x)
drop_config-Ended s plugin info creds id iso base here left _ q (returns a v k) =
    returns a _ (dropped-Ended s plugin info creds id iso base here left (ok tt) v q k)
drop_config-Ended s plugin info creds id iso base here left _ q (raises e v k) =
    raises e _ (dropped-Ended s plugin info creds id iso base here left (err e) v q k)

pub stored_install-Ended :
    (s : Setting) (plugin : Plugin) (info : ServerInfo) (creds : Credentials) (id : ℕ)
    (iso : IsoRow) (body : String) (w : Yard)
    → Unused s.token w.configs
    → After
        (λ _. Ended s plugin info creds id w.orders w.configs iso (ok tt))
        (λ e. Ended s plugin info creds id w.orders w.configs iso (err e))
        (stored_install s id plugin info creds iso body w)
unfolding stored_install
stored_install-Ended s plugin info creds id iso body w fresh =
    let here = store_config s.stored_at s.token body w.configs in
    let held : w.orders ≡ w.orders ++ [] = sym (append-nil w.orders) in
    drop_config-Ended s plugin info creds id iso w.orders here w.configs _
      (pop-store s.stored_at s.token body w.configs fresh)
      (install-Ended s plugin info creds id w.orders here iso (record w { configs = here })
        (sent held refl))
