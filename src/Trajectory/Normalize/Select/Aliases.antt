-- ===== src/Trajectory/Normalize/Select/Aliases.antt =====
-- Aliases that the schema accepts resolve in one pass.
use proofstep.Prelude.{
  String, ◌≡◌, refl, sym, ap, ◌⊎◌, inl, inr, true, false, none, some, List, [], ◌∷◌, arith,
  if◌then◌else◌, Bool-cases, Option-cases, is_some, any, str_eq, str_eq_iff, mem_text,
}
use proofstep.Prelude.Dict.{Dict, get, put, get-put}
use proofstep.Trajectory.Schema.{claim_raws, claim_all, alias_error}
use proofstep.Trajectory.Normalize.Select.{alias_map, add_raws, add_aliases, or_same}

-- `alias_map.get(raw, raw)`
abbrev pub resolve : Dict (List String) → String → String
resolve aliases raw = or_same (get raw (alias_map aliases)) raw

-- The policy lists `raw` under the canonical name `c`.
abbrev Lists : Dict (List String) → String → String → Type 0
Lists [] raw c = ⊥
Lists ((k, raws) ∷ rest) raw c = ((k ≡ c) × (mem_text raw raws ≡ true)) ⊎ Lists rest raw c

get-add_raws :
    (k raw : String) (raws : List String) (d : Dict String)
    → get raw (add_raws k raws d) ≡ (if mem_text raw raws then some k else get raw d)
unfolding add_raws
get-add_raws k raw [] d = refl
get-add_raws k raw (r ∷ raws) d =
    ground (arith, get-add_raws k raw raws (put r k d), get-put r raw k d)

listed_by :
    (raw c : String) (aliases : Dict (List String)) (d : Dict String)
    → get raw (add_aliases aliases d) ≡ some c
    → (get raw d ≡ some c) ⊎ Lists aliases raw c
unfolding add_aliases
listed_by raw c [] d h = inl h
listed_by raw c ((k, raws) ∷ rest) d h = elim (listed_by raw c rest (add_raws k raws d) h) [
  | inl here ↦ ground (arith, get-add_raws k raw raws d)
  | inr there ↦ inr (inr there)
]

-- Claims are never taken back.
claim_raws_keeps :
    (x k : String) (raws : List String) (o o' : Dict String)
    → claim_raws k raws o ≡ some o'
    → is_some (get x o) ≡ true
    → is_some (get x o') ≡ true
unfolding claim_raws
claim_raws_keeps x k [] o o' h s = ground arith
claim_raws_keeps x k (r ∷ raws) o o' h s = ground (
  arith,
  claim_raws_keeps x k raws o o',
  claim_raws_keeps x k raws (put r k o) o',
  get-put r x k o,
)

claim_raws_claims :
    (x k : String) (raws : List String) (o o' : Dict String)
    → claim_raws k raws o ≡ some o'
    → mem_text x raws ≡ true
    → str_eq x k ≡ false
    → is_some (get x o') ≡ true
unfolding claim_raws
claim_raws_claims x k [] o o' h m n = cc
claim_raws_claims x k (r ∷ raws) o o' h m n = ground (
  arith,
  claim_raws_claims x k raws o o',
  claim_raws_claims x k raws (put r k o) o',
  claim_raws_keeps x k raws (put r k o) o',
  get-put r x k o,
  str_eq_iff r x,
)

claim_all_keeps :
    (x : String) (aliases : Dict (List String)) (o o' : Dict String)
    → claim_all aliases o ≡ some o'
    → is_some (get x o) ≡ true
    → is_some (get x o') ≡ true
unfolding claim_all
claim_all_keeps x [] o o' h s = ground arith
claim_all_keeps x ((k, raws) ∷ rest) o o' h s = elim (Option-cases (claim_raws k raws o)) [
  | inl bad ↦ ground arith
  | inr (mid, q) ↦ ground (arith, claim_all_keeps x rest mid o', claim_raws_keeps x k raws o mid)
]

claim_all_claims :
    (x c : String) (aliases : Dict (List String)) (o o' : Dict String)
    → claim_all aliases o ≡ some o'
    → Lists aliases x c
    → str_eq x c ≡ false
    → is_some (get x o') ≡ true
unfolding claim_all
claim_all_claims x c [] o o' h l n = absurd l
claim_all_claims x c ((k, raws) ∷ rest) o o' h l n = elim (Option-cases (claim_raws k raws o)) [
  | inl bad ↦ ground arith
  | inr (mid, q) ↦
      let onward : claim_all rest mid ≡ some o' = ground arith in
      elim l [
        | inl (e, m) ↦
            claim_all_keeps x rest mid o' onward (claim_raws_claims x k raws o mid q m (rw e n))
        | inr there ↦ claim_all_claims x c rest mid o' onward there n
      ]
]

-- A canonical name is no alias of another.
canonical_free :
    (x c : String) (aliases : Dict (List String)) (o : Dict String)
    → any (λ entry. is_some (get entry.0 o)) aliases ≡ false
    → Lists aliases x c
    → is_some (get c o) ≡ false
canonical_free x c [] o h l = absurd l
canonical_free x c ((k, raws) ∷ rest) o h (inl (e, m)) = ground (arith, ap (λ n. get n o) e)
canonical_free x c ((k, raws) ∷ rest) o h (inr there) =
    canonical_free x c rest o (ground arith) there

accepted_owner :
    (aliases : Dict (List String))
    → alias_error aliases ≡ none
    → (o : Dict String) × (claim_all aliases [] ≡ some o)
      × (any (λ entry. is_some (get entry.0 o)) aliases ≡ false)
unfolding alias_error
accepted_owner aliases accepted = elim (Option-cases (claim_all aliases [])) [
  | inl bad ↦ ground arith
  | inr (o, q) ↦ (o, q, ground arith)
]

listed :
    (raw c : String) (aliases : Dict (List String))
    → get raw (alias_map aliases) ≡ some c
    → Lists aliases raw c
unfolding alias_map get
listed raw c aliases h = elim (listed_by raw c aliases [] h) [ inl e ↦ cc | inr l ↦ l ]

canonical_end :
    (raw c d : String) (aliases : Dict (List String))
    → alias_error aliases ≡ none
    → get raw (alias_map aliases) ≡ some c
    → get c (alias_map aliases) ≡ some d
    → d ≡ c
canonical_end raw c d aliases accepted q r =
    let (o, claimed, free) = accepted_owner aliases accepted in
    let unclaimed = canonical_free raw c aliases o free (listed raw c aliases q) in
    elim (Bool-cases (str_eq c d)) [
      | inl same ↦ sym ((str_eq_iff c d).0 same)
      | inr differ ↦
          let taken = claim_all_claims c d aliases [] o claimed (listed c d aliases r) differ in cc
    ]

-- When the schema accepts the aliases of a policy, to resolve a name twice is to resolve it once:
-- no canonical name is resolved further.
pub resolve-resolve :
    (aliases : Dict (List String)) (raw : String)
    → alias_error aliases ≡ none
    → resolve aliases (resolve aliases raw) ≡ resolve aliases raw
unfolding alias_map alias_error
resolve-resolve aliases raw accepted = elim (Option-cases (get raw (add_aliases aliases []))) [
  | inl unknown ↦ rw (unknown, unknown)
  | inr (c, q) ↦ elim (Option-cases (get c (add_aliases aliases []))) [
    | inl unlisted ↦ rw (q, unlisted)
    | inr (d, r) ↦ rw (q, r) (canonical_end raw c d aliases accepted q r)
  ]
]
