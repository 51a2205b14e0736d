-- ===== src/Daemon/Debt.antt =====
-- core/main.go: what the policy loop can still announce.
use mathlib.Core.Path.{subst}
use hisnos_secure_workstatio.Common.{
  ℕ, ◌+◌, ◌≤◌, ◌≡◌, refl, sym, ap, ◌∙◌, Bool, true, false, not, ◌&&◌, ◌||◌, arith, if◌then◌else◌,
}
use hisnos_secure_workstatio.State.{SystemState, is_safe_mode}
use hisnos_secure_workstatio.Policy.{critical}
use hisnos_secure_workstatio.Daemon.{World, vault_unmounted, entering, exiting, risk_raised}
use hisnos_secure_workstatio.Daemon.Effects.{Agree}
use hisnos_secure_workstatio.Daemon.Turns.{locks, shared, enters, exits, decided, announced}

-- The turns that the loop still owes, apart from the events that wait: an unmounted vault is not
-- locked again, and the mode changes at most once.
abbrev mode_debt : Bool → Bool → ℕ
mode_debt safe up = if safe then (if up then 1 else 0) else (if up then 0 else 2)

-- What the debt reads.
abbrev pub Shape : Type 0
Shape = Bool × Bool × Bool × Bool

abbrev pub shape : SystemState → Shape
shape s = (is_safe_mode s.mode, s.vault.mounted, s.firewall.active, s.subsystems.logd_alive)

abbrev debt_of : Shape → ℕ
debt_of (m, v, f, l) = (if v then 1 else 0) + mode_debt m (f && l)

pub debt : SystemState → ℕ
debt s = debt_of (shape s)

pub debt-Agree : (s t : SystemState) → Agree s t → debt s ≡ debt t
unfolding debt
debt-Agree s t (m, r, v, l, f, u) = rw (m, v, f, u) refl

abbrev pub unmount : Bool → Shape → Shape
unmount c (m, v, f, l) = (m, not c && v, f, l)

abbrev pub enter : Bool → Shape → Shape
enter c (m, v, f, l) = (c || m, v, f, l)

abbrev pub leave : Bool → Shape → Shape
leave c (m, v, f, l) = (not c && m, v, f, l)

shape-vault_unmounted :
    (c : Bool) (s : SystemState) → shape (if c then vault_unmounted s else s) ≡ unmount c (shape s)
shape-vault_unmounted true s = refl
shape-vault_unmounted false s = refl

shape-risk_raised : (c : Bool) (s : SystemState) → shape (if c then risk_raised s else s) ≡ shape s
unfolding risk_raised
shape-risk_raised true s = refl
shape-risk_raised false s = refl

shape-entering :
    (c : Bool) (s : SystemState) → shape (if c then entering s else s) ≡ enter c (shape s)
shape-entering true s = refl
shape-entering false s = refl

shape-exiting :
    (c : Bool) (s : SystemState) → shape (if c then exiting s else s) ≡ leave c (shape s)
shape-exiting true s = refl
shape-exiting false s = refl

pub shape-decided :
    (w : World) (s : SystemState)
    → shape (decided w s)
      ≡ leave (exits s) (
          enter
            (enters s.subsystems.logd_alive s)
            (enter (enters s.firewall.active s) (unmount (locks w s) (shape s))))
unfolding decided
shape-decided w s =
    let t1 = if locks w s then vault_unmounted s else s in
    let t3 = if shared s then risk_raised t1 else t1 in
    let t4 = if enters s.firewall.active s then entering t3 else t3 in
    let t5 = if enters s.subsystems.logd_alive s then entering t4 else t4 in
    shape-exiting (exits s) t5
    ∙ (ap (leave (exits s)) (shape-entering (enters s.subsystems.logd_alive s) t4)
        ∙ (ap (λ t. leave (exits s) (enter (enters s.subsystems.logd_alive s) t))
              (shape-entering (enters s.firewall.active s) t3)
            ∙ ap
                (λ t.
                  leave (exits s) (
                    enter (enters s.subsystems.logd_alive s)
                      (enter (enters s.firewall.active s) t)))
                (shape-risk_raised (shared s) t1 ∙ shape-vault_unmounted (locks w s) s)))

-- Each event that a turn announces is paid for.
pub announced-debt : (w : World) (s : SystemState) → announced w s + debt (decided w s) ≤ debt s
unfolding announced debt
announced-debt w s =
    subst (λ n. announced w s + n ≤ debt s) (sym (ap debt_of (shape-decided w s)))
      (paid (critical s) (is_safe_mode s.mode) s.vault.mounted s.firewall.active
        s.subsystems.logd_alive w.vault_executes)
  where
    paid :
        (k m v f l x : Bool)
        → (if k && (not m && (v && x)) then 1 else 0)
            + (if not f && not m then 1 else 0)
            + (if not l && not m then 1 else 0)
            + (if m && (f && (l && not k)) then 1 else 0)
            + debt_of (
                leave (m && (f && (l && not k))) (
                  enter
                    (not l && not m)
                    (enter (not f && not m) (unmount (k && (not m && (v && x))) (m, v, f, l)))))
          ≤ debt_of (m, v, f, l)
    paid k m v f l x = ground arith

pub debt-le : (s : SystemState) → debt s ≤ 3
unfolding debt
debt-le s = three (is_safe_mode s.mode) s.vault.mounted s.firewall.active s.subsystems.logd_alive
  where
    three :
        (m v f l : Bool)
        → (if v then 1 else 0)
            + (if m then (if f && l then 1 else 0) else (if f && l then 0 else 2))
          ≤ 3
    three m v f l = ground arith
