-- ===== src/Client/Tests.antt =====
-- A counter, in a store that is an association list.
use e2d.Prelude.Decimal.{pos, negsuc, max_int64}
use e2d.Client.{World, Fate, incr}
use e2d.Client.Samples.{assoc_etcd, assoc_etcd-IsEtcd}
use e2d.Client.Wire.{IsWire}
use e2d.Client.Counters.{incr_twice}
use e2d.Prelude.{
  ◌≡◌, refl, ◌≤◌, arith, Text, codes, some, List, [], ◌∷◌, inl, inr, ok, In, lookup, Option,
}

abbrev empty : World assoc_etcd
empty = record { kv = []; fates = []; draws = 0 }

abbrev counter : Text
counter = codes "/User/_id/ID"

first : (incr assoc_etcd counter empty).0 ≡ ok (pos 1)
unfolding incr e2d.Client.lock e2d.Client.read e2d.Client.get_n e2d.Client.get lookup e2d.Client.set
    e2d.Client.commit e2d.Prelude.insert e2d.Prelude.str_eq e2d.Prelude.Decimal.parse_int
    e2d.Prelude.Decimal.format_int e2d.Prelude.Decimal.format_uint
first = refl

second : (incr assoc_etcd counter (incr assoc_etcd counter empty).1).0 ≡ ok (pos 2)
unfolding incr e2d.Client.lock e2d.Client.read e2d.Client.get_n e2d.Client.get lookup e2d.Client.set
    e2d.Client.commit e2d.Prelude.insert e2d.Prelude.str_eq e2d.Prelude.Decimal.parse_int
    e2d.Prelude.Decimal.format_int e2d.Prelude.Decimal.format_uint
second = refl

no_fates : (incr assoc_etcd counter empty).1.fates ≡ []
unfolding incr e2d.Client.lock e2d.Client.read e2d.Client.get_n e2d.Client.get lookup e2d.Client.set
    e2d.Client.commit e2d.Prelude.insert e2d.Prelude.str_eq e2d.Prelude.Decimal.parse_int
    e2d.Prelude.Decimal.format_int e2d.Prelude.Decimal.format_uint
no_fates = refl

answered_all : (fates : List Fate) → fates ≡ [] → IsWire assoc_etcd fates
answered_all [] h e (inl i) = elim i [ ]
answered_all [] h e (inr i) = elim i [ ]
answered_all (f ∷ fs) h e i = absurd (cc h)

incr_twice_example :
    (pos 2 ≡ pos 2)
    × (lookup counter (incr assoc_etcd counter (incr assoc_etcd counter empty).1).1.kv
        ≡ some (codes "2"))
unfolding e2d.Prelude.Decimal.format_int e2d.Prelude.Decimal.format_uint
incr_twice_example =
    incr_twice assoc_etcd assoc_etcd-IsEtcd counter empty (incr assoc_etcd counter empty).1 (pos 1)
      (pos 2) (omega arith) (answered_all [] refl)
      (answered_all (incr assoc_etcd counter empty).1.fates no_fates) first refl second
