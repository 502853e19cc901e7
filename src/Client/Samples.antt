-- ===== src/Client/Samples.antt =====
-- A store that is an association list, which keeps what is relied on of etcd.
use e2d.Client.{Etcd, IsEtcd, Op, put, delete, after_op, after_ops}
use e2d.Prelude.{insert, delete as without}
use e2d.Prelude.{
  In-select, select-In, ◌≡◌, refl, ap, ◌∙◌, subst, ◌↔◌, Bool, true, false, ◌&&◌, Option, none, some,
  List, [], ◌∷◌, arith, select, Text, str_eq, str_eq_iff, has_prefix, Assoc, lookup, lookup-delete,
  lookup-insert, In-of_lookup,
}

abbrev pub apply_op : Op → Assoc Text → Assoc Text
apply_op (put k v) kv = insert k v kv
apply_op (delete k) kv = without k kv

abbrev pub apply_ops : List Op → Assoc Text → Assoc Text
apply_ops [] kv = kv
apply_ops (op ∷ ops) kv = apply_ops ops (apply_op op kv)

abbrev pub holds : Assoc Text → Text × Text → Bool
holds kv (k, v) = elim (lookup k kv) [ none ↦ false | some u ↦ str_eq u v ]

abbrev pub is_under : Assoc Text → Text → Text × Text → Bool
is_under kv p e = has_prefix p e.0 && holds kv e

abbrev pub assoc_etcd : Etcd
assoc_etcd = record {
  Kv = Assoc Text;
  get = λ kv k. lookup k kv;
  range = λ kv p. select (is_under kv p) kv;
  txn = λ kv ops. some (apply_ops ops kv, 0);
}

lookup-apply_op :
    (op : Op) (kv : Assoc Text) (k : Text) → lookup k (apply_op op kv) ≡ after_op op k (lookup k kv)
lookup-apply_op (put j v) kv k = lookup-insert j k v kv
lookup-apply_op (delete j) kv k = lookup-delete j k kv

lookup-apply_ops :
    (ops : List Op) (kv : Assoc Text) (k : Text)
    → lookup k (apply_ops ops kv) ≡ after_ops ops k (lookup k kv)
lookup-apply_ops [] kv k = refl
lookup-apply_ops (op ∷ ops) kv k =
    lookup-apply_ops ops (apply_op op kv) k ∙ ap (after_ops ops k) (lookup-apply_op op kv k)

holds_iff : (kv : Assoc Text) (k v : Text) → (holds kv (k, v) ≡ true) ↔ (lookup k kv ≡ some v)
holds_iff kv k v = cases (lookup k kv)
  where
    cases :
        (o : Option Text) → (elim o [ none ↦ false | some u ↦ str_eq u v ] ≡ true) ↔ (o ≡ some v)
    cases none = ground arith
    cases (some u) = ground (arith, str_eq_iff u v)

pub assoc_etcd-IsEtcd : IsEtcd assoc_etcd
assoc_etcd-IsEtcd = record {
  get-txn = λ s s' ops n k h.
      subst (λ (m : Assoc Text). lookup k m ≡ after_ops ops k (lookup k s)) (ground arith)
        (lookup-apply_ops ops s k);
  range_iff = λ s p k v. (
    λ i.
        let q = In-select (is_under s p) s (k, v) i in
        (ground (arith, q.1), (holds_iff s k v).0 (ground (arith, q.1))),
    λ h.
        select-In (is_under s p) s (k, v) (In-of_lookup k v s h.1)
          (ground (arith, h.0, (holds_iff s k v).1 h.1)),
  );
}
