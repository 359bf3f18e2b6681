-- ===== src/Devinfo/Table.antt =====
-- The table of addresses: its three functions agree.
use embedded_pg.Base.{
  ℕ, ◌≤◌, ◌≡◌, refl, some, List, [], ◌∷◌, arith, subst, ◌⊎◌, Bool-cases, inl, inr,
}
use embedded_pg.Base.Int.{pos}
use embedded_pg.Base.Outcome.{ok}
use embedded_pg.Cstring.{Str, same}
use embedded_pg.Devinfo.{
  DevInfo, device_1, device_2, device_3, device_4, find_ip, mac2ip, index2ip, ip2index,
}

-- The index of an address in the table.
pub record IsIndexed (ip : Str) : Type 0 where
  pub index : ℕ
  pub of_ip : ip2index ip ≡ ok (pos index)
  pub to_ip : index2ip (pos index) ≡ ok ip
  pub first : 1 ≤ index
  pub last : index ≤ 4

row-IsIndexed :
    (i : ℕ) (ip : Str)
    → ip2index ip ≡ ok (pos i)
    → index2ip (pos i) ≡ ok ip
    → 1 ≤ i
    → i ≤ 4
    → (got : Str) → ip ≡ got
    → IsIndexed got
row-IsIndexed i ip e f h k got q =
    subst IsIndexed q (record { index = i; of_ip = e; to_ip = f; first = h; last = k })

find_ip-cases :
    (mac ip : Str) (d : DevInfo) (l : List DevInfo)
    → find_ip mac (d ∷ l) ≡ some ip
    → (d.ip ≡ ip) ⊎ (find_ip mac l ≡ some ip)
unfolding find_ip
find_ip-cases mac ip d l h = elim (Bool-cases (same mac d.mac)) [
  | inl e ↦ let k : some d.ip ≡ some ip = rw e at h in inl cc
  | inr e ↦ let k : find_ip mac l ≡ some ip = rw e at h in inr k
]

find_ip-nil : (mac ip : Str) → find_ip mac [] ≡ some ip → ⊥
unfolding find_ip
find_ip-nil mac ip h = cc

-- An IP address that the table gives for a MAC address ends in its index, and the index, between 1
-- and 4, leads back to it.
pub mac2ip-IsIndexed : (mac ip : Str) → mac2ip mac ≡ some ip → IsIndexed ip
unfolding mac2ip index2ip ip2index
mac2ip-IsIndexed mac ip h =
    elim (find_ip-cases mac ip device_1 (device_2 ∷ device_3 ∷ device_4 ∷ []) h) [
      | inl e ↦ row-IsIndexed 1 device_1.ip refl refl (omega arith) (omega arith) ip e
      | inr h2 ↦ elim (find_ip-cases mac ip device_2 (device_3 ∷ device_4 ∷ []) h2) [
        | inl e ↦ row-IsIndexed 2 device_2.ip refl refl (omega arith) (omega arith) ip e
        | inr h3 ↦ elim (find_ip-cases mac ip device_3 (device_4 ∷ []) h3) [
          | inl e ↦ row-IsIndexed 3 device_3.ip refl refl (omega arith) (omega arith) ip e
          | inr h4 ↦ elim (find_ip-cases mac ip device_4 [] h4) [
            | inl e ↦ row-IsIndexed 4 device_4.ip refl refl (omega arith) (omega arith) ip e
            | inr h5 ↦ absurd (find_ip-nil mac ip h5)
          ]
        ]
      ]
    ]
