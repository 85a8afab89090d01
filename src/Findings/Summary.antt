-- ===== src/Findings/Summary.antt =====
-- `FindingSummary::from_findings`: how many findings there are of each severity and category.
use docker_map.Common.{
  ℕ, ◌+◌, ◌^◌, ◌-◌, ◌≤◌, ◌≡◌, min, Bool, true, false, List, [], ◌∷◌, arith, length, filter,
  if◌then◌else◌,
}
use docker_map.Models.Runtime.{FindingSeverity, FindingRule, FindingCategory, Finding}

pub record FindingSummary : Type 0 where
  pub warning_count : ℕ
  pub advisory_count : ℕ
  pub declared_dependency_count : ℕ
  pub docker_daemon_authority_count : ℕ
  pub host_port_publication_count : ℕ
  pub evidence_integrity_count : ℕ

unfoldable pub category : FindingRule → FindingCategory
category FindingRule.systemd_requires_target_not_active = FindingCategory.declared_dependency
category FindingRule.systemd_part_of_target_not_active = FindingCategory.declared_dependency
category FindingRule.docker_compose_declared_target_not_active = FindingCategory.declared_dependency
category FindingRule.docker_compose_mutual_dependency = FindingCategory.declared_dependency
category FindingRule.docker_daemon_state_bind_mount = FindingCategory.docker_daemon_authority
category FindingRule.docker_internal_network_member_publishes_port =
    FindingCategory.host_port_publication
category FindingRule.docker_daemon_state_bind_mount_publishes_port =
    FindingCategory.host_port_publication
category FindingRule.docker_port_published_on_unspecified_address =
    FindingCategory.host_port_publication
category FindingRule.compose_declared_mount_missing_at_bound_container =
    FindingCategory.declared_dependency
category FindingRule.runtime_identity_collision_detected = FindingCategory.evidence_integrity
category FindingRule.runtime_declared_relationship_evidence_not_current =
    FindingCategory.evidence_integrity

-- `saturating_add(1)` on `u32`.
abbrev pub saturating_succ : ℕ → ℕ
saturating_succ n = min (n + 1) (2 ^ 32 - 1)

unfoldable pub count_severity : FindingSeverity → FindingSummary → FindingSummary
count_severity FindingSeverity.warning s = record s {
  warning_count = saturating_succ s.warning_count;
}
count_severity FindingSeverity.advisory s = record s {
  advisory_count = saturating_succ s.advisory_count;
}

unfoldable pub count_category : FindingCategory → FindingSummary → FindingSummary
count_category FindingCategory.declared_dependency s = record s {
  declared_dependency_count = saturating_succ s.declared_dependency_count;
}
count_category FindingCategory.docker_daemon_authority s = record s {
  docker_daemon_authority_count = saturating_succ s.docker_daemon_authority_count;
}
count_category FindingCategory.host_port_publication s = record s {
  host_port_publication_count = saturating_succ s.host_port_publication_count;
}
count_category FindingCategory.evidence_integrity s = record s {
  evidence_integrity_count = saturating_succ s.evidence_integrity_count;
}

unfoldable pub tally : FindingSummary → List Finding → FindingSummary
tally s [] = s
tally s (f ∷ findings) =
    tally (count_category (category f.rule_id) (count_severity f.severity s)) findings

abbrev pub nothing_counted : FindingSummary
nothing_counted = record {
  warning_count = 0;
  advisory_count = 0;
  declared_dependency_count = 0;
  docker_daemon_authority_count = 0;
  host_port_publication_count = 0;
  evidence_integrity_count = 0;
}

unfoldable pub from_findings : List Finding → FindingSummary
unfolding tally
from_findings findings = tally nothing_counted findings

-- The counters that the findings ask for: of each severity, and of the rules of each category.
abbrev pub is_warning : FindingSeverity → Bool
is_warning FindingSeverity.warning = true
is_warning _ = false

abbrev pub is_advisory : FindingSeverity → Bool
is_advisory FindingSeverity.advisory = true
is_advisory _ = false

abbrev pub is_declared_dependency : FindingRule → Bool
is_declared_dependency FindingRule.systemd_requires_target_not_active = true
is_declared_dependency FindingRule.systemd_part_of_target_not_active = true
is_declared_dependency FindingRule.docker_compose_declared_target_not_active = true
is_declared_dependency FindingRule.docker_compose_mutual_dependency = true
is_declared_dependency FindingRule.compose_declared_mount_missing_at_bound_container = true
is_declared_dependency _ = false

abbrev pub is_docker_daemon_authority : FindingRule → Bool
is_docker_daemon_authority FindingRule.docker_daemon_state_bind_mount = true
is_docker_daemon_authority _ = false

abbrev pub is_host_port_publication : FindingRule → Bool
is_host_port_publication FindingRule.docker_internal_network_member_publishes_port = true
is_host_port_publication FindingRule.docker_daemon_state_bind_mount_publishes_port = true
is_host_port_publication FindingRule.docker_port_published_on_unspecified_address = true
is_host_port_publication _ = false

abbrev pub is_evidence_integrity : FindingRule → Bool
is_evidence_integrity FindingRule.runtime_identity_collision_detected = true
is_evidence_integrity FindingRule.runtime_declared_relationship_evidence_not_current = true
is_evidence_integrity _ = false

-- Where a `u32` counter stops.
abbrev pub saturated : ℕ → ℕ
saturated n = min n (2 ^ 32 - 1)

abbrev pub by_severity : (FindingSeverity → Bool) → List Finding → ℕ
by_severity p findings = length (filter (λ f. p f.severity) findings)

abbrev pub by_rule : (FindingRule → Bool) → List Finding → ℕ
by_rule p findings = length (filter (λ f. p f.rule_id) findings)

-- Each counter of the second summary is that of the first and the findings of its kind.
abbrev pub Counts : FindingSummary → List Finding → FindingSummary → Type 0
Counts s findings t =
    (t.warning_count ≡ saturated (s.warning_count + by_severity is_warning findings))
    × (t.advisory_count ≡ saturated (s.advisory_count + by_severity is_advisory findings))
    × (t.declared_dependency_count
        ≡ saturated (s.declared_dependency_count + by_rule is_declared_dependency findings))
    × (t.docker_daemon_authority_count
        ≡ saturated (s.docker_daemon_authority_count + by_rule is_docker_daemon_authority findings))
    × (t.host_port_publication_count
        ≡ saturated (s.host_port_publication_count + by_rule is_host_port_publication findings))
    × (t.evidence_integrity_count
        ≡ saturated (s.evidence_integrity_count + by_rule is_evidence_integrity findings))

-- No counter is past its bound.
abbrev IsBounded : FindingSummary → Type 0
IsBounded s =
    (s.warning_count ≤ 2 ^ 32 - 1)
    × (s.advisory_count ≤ 2 ^ 32 - 1)
    × (s.declared_dependency_count ≤ 2 ^ 32 - 1)
    × (s.docker_daemon_authority_count ≤ 2 ^ 32 - 1)
    × (s.host_port_publication_count ≤ 2 ^ 32 - 1)
    × (s.evidence_integrity_count ≤ 2 ^ 32 - 1)

-- Each counter grows by one where it is told to.
abbrev IsCounted :
    FindingSummary → Bool → Bool → Bool → Bool → Bool → Bool → FindingSummary → Type 0
IsCounted s w a d o p i t =
    (t.warning_count ≡ saturated (s.warning_count + (if w then 1 else 0)))
    × (t.advisory_count ≡ saturated (s.advisory_count + (if a then 1 else 0)))
    × (t.declared_dependency_count ≡ saturated (s.declared_dependency_count + (if d then 1 else 0)))
    × (t.docker_daemon_authority_count
        ≡ saturated (s.docker_daemon_authority_count + (if o then 1 else 0)))
    × (t.host_port_publication_count
        ≡ saturated (s.host_port_publication_count + (if p then 1 else 0)))
    × (t.evidence_integrity_count ≡ saturated (s.evidence_integrity_count + (if i then 1 else 0)))

count_severity-IsCounted :
    (severity : FindingSeverity) (s : FindingSummary)
    → IsBounded s
    → IsCounted s
        (is_warning severity)
        (is_advisory severity)
        false
        false
        false
        false
        (count_severity severity s)
unfolding count_severity
count_severity-IsCounted FindingSeverity.warning s h = omega arith
count_severity-IsCounted FindingSeverity.advisory s h = omega arith

count_category-IsCounted :
    (rule : FindingRule) (s : FindingSummary)
    → IsBounded s
    → IsCounted s false false
        (is_declared_dependency rule)
        (is_docker_daemon_authority rule)
        (is_host_port_publication rule)
        (is_evidence_integrity rule)
        (count_category (category rule) s)
unfolding count_category category
count_category-IsCounted FindingRule.systemd_requires_target_not_active s h = omega arith
count_category-IsCounted FindingRule.systemd_part_of_target_not_active s h = omega arith
count_category-IsCounted FindingRule.docker_compose_declared_target_not_active s h = omega arith
count_category-IsCounted FindingRule.docker_compose_mutual_dependency s h = omega arith
count_category-IsCounted FindingRule.docker_daemon_state_bind_mount s h = omega arith
count_category-IsCounted FindingRule.docker_internal_network_member_publishes_port s h = omega arith
count_category-IsCounted FindingRule.docker_daemon_state_bind_mount_publishes_port s h = omega arith
count_category-IsCounted FindingRule.docker_port_published_on_unspecified_address s h = omega arith
count_category-IsCounted FindingRule.compose_declared_mount_missing_at_bound_container s h =
    omega arith
count_category-IsCounted FindingRule.runtime_identity_collision_detected s h = omega arith
count_category-IsCounted FindingRule.runtime_declared_relationship_evidence_not_current s h =
    omega arith

-- One more item, and those behind it.
saturated-filter :
    {A : Type 0} (p : A → Bool) (x : A) (xs : List A) (n m k : ℕ)
    → m ≡ saturated (n + (if p x then 1 else 0))
    → k ≡ saturated (m + length (filter p xs))
    → k ≡ saturated (n + length (filter p (x ∷ xs)))
saturated-filter p x xs n m k h w = ground arith

tally-Counts :
    (s : FindingSummary) (findings : List Finding)
    → IsBounded s
    → Counts s findings (tally s findings)
unfolding tally
tally-Counts s [] h = omega arith
tally-Counts s (f ∷ findings) h =
    let t = count_severity f.severity s in
    let one = count_severity-IsCounted f.severity s h in
    let t-IsBounded : IsBounded t = omega (arith, one) in
    let two = count_category-IsCounted f.rule_id t t-IsBounded in
    let u = count_category (category f.rule_id) t in
    let u-IsBounded : IsBounded u = omega (arith, two) in
    let rest = tally-Counts u findings u-IsBounded in
    (
      saturated-filter (λ g. is_warning g.severity) f findings _ u.warning_count _
          (omega (arith, one.0, two.0)) rest.0,
      saturated-filter (λ g. is_advisory g.severity) f findings _ u.advisory_count _
          (omega (arith, one.1, two.1)) rest.1,
      saturated-filter (λ g. is_declared_dependency g.rule_id) f findings _
          u.declared_dependency_count _ (omega (arith, one.2, two.2)) rest.2,
      saturated-filter (λ g. is_docker_daemon_authority g.rule_id) f findings _
          u.docker_daemon_authority_count _ (omega (arith, one.3, two.3)) rest.3,
      saturated-filter (λ g. is_host_port_publication g.rule_id) f findings _
          u.host_port_publication_count _ (omega (arith, one.4, two.4)) rest.4,
      saturated-filter (λ g. is_evidence_integrity g.rule_id) f findings _
          u.evidence_integrity_count _ (omega (arith, one.5, two.5)) rest.5,
    )

-- Each counter holds how many of the findings are of its severity, or have a rule of its category,
-- and stops at the largest `u32`.
pub from_findings_lem :
    (findings : List Finding) → Counts nothing_counted findings (from_findings findings)
unfolding from_findings
from_findings_lem findings = tally-Counts nothing_counted findings (omega arith)
