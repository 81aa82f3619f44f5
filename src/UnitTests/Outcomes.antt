-- ===== src/UnitTests/Outcomes.antt =====
-- The tests of oom-watcher/src/resolve.rs.
use ebpf_oom_watcher.Prelude.{◌≡◌, refl, none, some, codes}
use ebpf_oom_watcher.Common.{ContainerIdentity}
use ebpf_oom_watcher.Resolve.{Error, ResolutionOutcome, identity, ContainerResolver, Behavior, fake}
use ebpf_oom_watcher.UnitTests.{prod_identity}

-- The error with the message "boom" stands for any.
abbrev IdentityIsSomeOnlyWhenFound : Type 0
IdentityIsSomeOnlyWhenFound =
    (identity (ResolutionOutcome.found prod_identity) ≡ some prod_identity)
    × (identity ResolutionOutcome.not_found ≡ none)
    × ((boom : Error) → identity (ResolutionOutcome.failed boom) ≡ none)

identity_is_some_only_when_found : IdentityIsSomeOnlyWhenFound
unfolding identity
identity_is_some_only_when_found = (refl, refl, λ boom. refl)

abbrev on_node_1 : Behavior → ContainerResolver Unit
on_node_1 behavior = fake (record { node = codes "node-1"; behavior = behavior })

abbrev FakeResolverYieldsEachOutcome : Type 0
FakeResolverYieldsEachOutcome =
    let found = on_node_1 (Behavior.found prod_identity) in
    (found.node_name ≡ codes "node-1")
    × ((id : ContainerIdentity) × (found.resolve tt 1234 ≡ ResolutionOutcome.found id))
    × ((on_node_1 Behavior.not_found).resolve tt 1234 ≡ ResolutionOutcome.not_found)
    × ((e : Error) × ((on_node_1 Behavior.fail).resolve tt 1234 ≡ ResolutionOutcome.failed e))

fake_resolver_yields_each_outcome : FakeResolverYieldsEachOutcome
fake_resolver_yields_each_outcome = (refl, (prod_identity, refl), refl, (Error.api_down, refl))
