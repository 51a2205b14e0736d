-- ===== src/Supervisor/Observing.antt =====
-- core/supervisor/supervisor.go: what the state says after a check.
use hisnos_secure_workstatio.Common.{
  ◌≡◌, refl, ap, ◌∙◌, inl, inr, Bool, true, false, not, ◌&&◌, List, [], ◌∷◌, Bool-cases, arith,
  if◌then◌else◌,
}
use hisnos_secure_workstatio.AtomicFile.{Json}
use hisnos_secure_workstatio.State.{SystemState, SubsystemState, FirewallState, VaultState}
use hisnos_secure_workstatio.State.Manager.Laws.{update-Persisted, updated_fields}
use hisnos_secure_workstatio.Supervisor.{
  Service, nftables, logd, threatd, dashboard, services, Probe, Supervised, observed, mounted_as,
  differs, with_alive, was_alive, set, tell, crashed, check_service, check_each, check_vault,
  check_all, restartable, is_nftables, unit,
}

-- What the probe saw, as the state says it.
abbrev pub seen : Probe → SubsystemState
seen p = record {
  dashboard_alive = p.is_active dashboard;
  threatd_alive = p.is_active threatd;
  logd_alive = p.is_active logd;
  nftables_alive = p.is_active nftables;
}

module _ {B : Type 0} (json : Json SystemState B) where
  set-fields :
      (p : Probe) (f : SystemState → SystemState) (d : Supervised B)
      → let t = (set json p f d).manager.state in
        let u = f d.manager.state in
        (t.mode ≡ u.mode)
        × (t.risk ≡ u.risk)
        × (t.vault ≡ u.vault)
        × (t.lab ≡ u.lab)
        × (t.firewall ≡ u.firewall)
        × (t.subsystems ≡ u.subsystems)
  unfolding set
  set-fields p f d =
      rw ((update-Persisted json p.fails p.now f d.manager).0)
        (updated_fields p.now f d.manager.state)

  -- Whatever it announces, the check of a service leaves the state that `Update` gave.
  check_service-manager :
      (p : Probe) (svc : Service) (d : Supervised B)
      → (check_service json p svc d).0.manager
        ≡ (set json p (observed svc (p.is_active svc)) d).manager
  unfolding check_service tell
  check_service-manager p svc d =
      cases (was_alive svc d.manager.state.subsystems) (p.is_active svc)
        (set json p (observed svc (p.is_active svc)) d)
    where
      cases :
          (was alive : Bool) (x : Supervised B)
          → let r : Supervised B × List Service =
              if was && not alive
              then (crashed json p svc x, if restartable svc then svc ∷ [] else [])
              else if not was && alive
              then (tell json p "SubsystemRestored" (unit svc) x, [])
              else (x, []) in
            r.0.manager ≡ x.manager
      cases true true x = refl
      cases true false x = elim (Bool-cases (is_nftables svc)) [
        | inl q ↦ rw q refl
        | inr q ↦ rw q refl
      ]
      cases false true x = refl
      cases false false x = refl

  observed-fields :
      (svc : Service) (a : Bool) (s : SystemState)
      → let t = observed svc a s in
        (t.mode ≡ s.mode)
        × (t.risk ≡ s.risk)
        × (t.vault ≡ s.vault)
        × (t.lab ≡ s.lab)
        × (t.subsystems ≡ with_alive svc a s.subsystems)
        × (t.firewall.active ≡ (if is_nftables svc then a else s.firewall.active))
  observed-fields nftables a s = (refl, refl, refl, refl, refl, refl)
  observed-fields logd a s = (refl, refl, refl, refl, refl, refl)
  observed-fields threatd a s = (refl, refl, refl, refl, refl, refl)
  observed-fields dashboard a s = (refl, refl, refl, refl, refl, refl)

  check_service-fields :
      (p : Probe) (svc : Service) (d : Supervised B)
      → let s = d.manager.state in
        let t = (check_service json p svc d).0.manager.state in
        (t.mode ≡ s.mode)
        × (t.risk ≡ s.risk)
        × (t.vault ≡ s.vault)
        × (t.lab ≡ s.lab)
        × (t.subsystems ≡ with_alive svc (p.is_active svc) s.subsystems)
        × (t.firewall.active ≡ (if is_nftables svc then p.is_active svc else s.firewall.active))
  check_service-fields p svc d =
      let f = observed svc (p.is_active svc) in
      let (m, r, v, l, w, u) = set-fields p f d in
      let (m', r', v', l', u', w') = observed-fields svc (p.is_active svc) d.manager.state in
      let e = check_service-manager p svc d in
      rw e (m ∙ m', r ∙ r', v ∙ v', l ∙ l', u ∙ u', ap (λ (x : FirewallState). x.active) w ∙ w')

  services-fields :
      (p : Probe) (d : Supervised B)
      → let s = d.manager.state in
        let t = (check_each json p services d).0.manager.state in
        (t.mode ≡ s.mode)
        × (t.risk ≡ s.risk)
        × (t.vault ≡ s.vault)
        × (t.lab ≡ s.lab)
        × (t.subsystems ≡ seen p)
        × (t.firewall.active ≡ p.is_active nftables)
  unfolding check_each
  services-fields p d =
      let d1 = (check_service json p nftables d).0 in
      let d2 = (check_service json p logd d1).0 in
      let d3 = (check_service json p threatd d2).0 in
      let (m1, r1, v1, l1, u1, w1) = check_service-fields p nftables d in
      let (m2, r2, v2, l2, u2, w2) = check_service-fields p logd d1 in
      let (m3, r3, v3, l3, u3, w3) = check_service-fields p threatd d2 in
      let (m4, r4, v4, l4, u4, w4) = check_service-fields p dashboard d3 in
      (
        m4 ∙ (m3 ∙ (m2 ∙ m1)),
        r4 ∙ (r3 ∙ (r2 ∙ r1)),
        v4 ∙ (v3 ∙ (v2 ∙ v1)),
        l4 ∙ (l3 ∙ (l2 ∙ l1)),
        u4
            ∙ (ap (with_alive dashboard (p.is_active dashboard)) u3
                ∙ (ap
                      (λ x.
                        with_alive dashboard (p.is_active dashboard)
                          (with_alive threatd (p.is_active threatd) x))
                      u2
                    ∙ ap
                        (λ x. with_alive dashboard (p.is_active dashboard) (
                          with_alive threatd (p.is_active threatd)
                            (with_alive logd (p.is_active logd) x)))
                        u1)),
        w4 ∙ (w3 ∙ (w2 ∙ w1)),
      )

  -- After a check the state says of every service, of the firewall and of the vault what the probe
  -- saw, whether or not the state can be written; mode, risk and lab are untouched.
  pub check_all-seen :
      (p : Probe) (d : Supervised B)
      → let s = d.manager.state in
        let t = (check_all json p d).0.manager.state in
        (t.subsystems ≡ seen p)
        × (t.firewall.active ≡ p.is_active nftables)
        × (t.vault.mounted ≡ p.is_vault_mounted)
        × (t.mode ≡ s.mode)
        × (t.risk ≡ s.risk)
        × (t.lab ≡ s.lab)
  unfolding check_all check_vault tell
  check_all-seen p d =
      let d4 = (check_each json p services d).0 in
      let (m, r, v, l, u, w) = services-fields p d in
      let (m', r', v', l', w', u') = set-fields p (mounted_as p.is_vault_mounted) d4 in
      elim (Bool-cases (differs p.is_vault_mounted d.manager.state.vault.mounted)) [
        | inl q ↦ rw q (
          u' ∙ u,
          ap (λ (x : FirewallState). x.active) w' ∙ w,
          ap (λ (x : VaultState). x.mounted) v',
          m' ∙ m,
          r' ∙ r,
          l' ∙ l,
        )
        | inr q ↦
            rw q
              (u, w, ap (λ (x : VaultState). x.mounted) v ∙ agree p.is_vault_mounted _ q, m, r, l)
      ]
    where
      agree : (a b : Bool) → differs a b ≡ false → b ≡ a
      agree a b q = ground arith
