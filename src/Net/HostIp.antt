-- ===== src/Net/HostIp.antt =====
-- The address that is proposed for the machine.
use mathlib.Core.List.{append_assoc}
use rfid_middleware_idro900e.Prelude.{
  true, false, [], ◌∷◌, ◌++◌, Option, some, Bytes, bytes_eq, bytes_eq_iff, ◌≡◌, ◌≢◌, refl, sym, ap,
  ◌∙◌, arith, inl, inr, Bool-cases, if◌then◌else◌,
}
use rfid_middleware_idro900e.Net.{
  Ip, decimal_of, dot, prefix_of, text_of, is_empty_text, host_of, subnet_24, host_ip_for, hundred,
  hundred_one, has_prefix,
}

append-cancel : (p a b : Bytes) → p ++ a ≡ p ++ b → a ≡ b
append-cancel [] a b h = h
append-cancel (x ∷ p) a b h = append-cancel p a b (cc h)

has_prefix-append : (p s : Bytes) → has_prefix (p ++ s) p ≡ true
unfolding has_prefix
has_prefix-append [] s = refl
has_prefix-append (c ∷ p) s = ground (arith, has_prefix-append p s)

text-prefix : (ip : Ip) → text_of ip ≡ prefix_of ip ++ decimal_of ip.d
text-prefix ip =
    let a = decimal_of ip.a in
    let b = decimal_of ip.b in
    let c = decimal_of ip.c in
    let d = decimal_of ip.d in
    sym (
      append_assoc a (dot (b ++ dot (c ++ dot []))) d
      ∙ ap (λ (x : Bytes). a ++ dot x) (append_assoc b (dot (c ++ dot [])) d)
      ∙ ap (λ (x : Bytes). a ++ dot (b ++ dot x)) (append_assoc c (dot []) d))

full : (xs ys : Bytes) → is_empty_text (xs ++ dot ys) ≡ false
full [] ys = refl
full (x ∷ xs) ys = refl

last_part : Ip → Bytes
last_part ip = if bytes_eq (decimal_of ip.d) hundred then hundred_one else hundred

last_ne : (ip : Ip) → last_part ip ≢ decimal_of ip.d
unfolding last_part bytes_eq
last_ne ip e = elim (Bool-cases (bytes_eq (decimal_of ip.d) hundred)) [
  | inl t ↦ other ((bytes_eq_iff (decimal_of ip.d) hundred).0 t) (rw t at e)
  | inr t ↦ same (rw t at e) t
]
  where
    other : decimal_of ip.d ≡ hundred → hundred_one ≡ decimal_of ip.d → ⊥
    other p q = cc ((bytes_eq_iff hundred_one hundred).1 (q ∙ p))

    same : hundred ≡ decimal_of ip.d → bytes_eq (decimal_of ip.d) hundred ≡ false → ⊥
    same p q = ground (arith, q, (bytes_eq_iff (decimal_of ip.d) hundred).1 (sym p))

host_ip_is :
    (parse : Bytes → Option Ip) (addr : Bytes) (ip : Ip)
    → parse (host_of addr) ≡ some ip
    → host_ip_for parse addr ≡ prefix_of ip ++ last_part ip
unfolding host_ip_for subnet_24 last_part
host_ip_is parse addr ip h =
    rw (h, full (decimal_of ip.a) (decimal_of ip.b ++ dot (decimal_of ip.c ++ dot [])))
      (elim (Bool-cases (bytes_eq (decimal_of ip.d) hundred)) [
        | inl t ↦ rw t refl
        | inr t ↦ rw t refl
      ])

-- Where a reader has an IPv4 address, the address that is proposed for the machine is in the reader's network of 256 and is not the reader's.
pub host_ip_free :
    (parse : Bytes → Option Ip) (addr : Bytes) (ip : Ip)
    → parse (host_of addr) ≡ some ip
    → (has_prefix (host_ip_for parse addr) (subnet_24 parse addr) ≡ true)
      × (host_ip_for parse addr ≢ text_of ip)
unfolding subnet_24
host_ip_free parse addr ip h =
    let e = host_ip_is parse addr ip h in
    (
      rw (e, h) (has_prefix-append (prefix_of ip) (last_part ip)),
      λ q. last_ne ip (
          append-cancel (prefix_of ip) (last_part ip) (decimal_of ip.d)
            (sym e ∙ q ∙ text-prefix ip)),
    )
