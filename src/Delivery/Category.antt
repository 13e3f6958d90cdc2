-- ===== src/Delivery/Category.antt =====
-- Equality of the taxonomy categories.
use agent_it.Base.{Eq, ℕ, ◌≡◌, ◌↔◌, ◌==◌, Bool, true, arith}
use agent_it.Delivery.File.{
  FileCategory, cluster_config, cicd_shared_namespace, source_patch, narrative_report,
  manifest_at_rest, secret_blocked,
}

abbrev pub index : FileCategory → ℕ
index cluster_config = 0
index cicd_shared_namespace = 1
index source_patch = 2
index narrative_report = 3
index manifest_at_rest = 4
index secret_blocked = 5

abbrev pub same_category : FileCategory → FileCategory → Bool
same_category a b = index a == index b

pub same_category_iff : (a b : FileCategory) → (same_category a b ≡ true) ↔ (a ≡ b)
same_category_iff a b = ground arith

instance abbrev pub category_eq : Eq FileCategory
category_eq = record { beq = same_category; beq_iff = same_category_iff }
