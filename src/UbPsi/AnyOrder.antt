-- ===== src/UbPsi/AnyOrder.antt =====
-- The results of psi/algorithm/ecdh/ub_psi/server.cc and client.cc for the server's rows in any order.
use mathlib.Core.List.{Permᴰ, append_assoc}
use mathlib.Core.List.Permᴰ
use psi.Prelude.{ℕ, ◌≡◌, refl, sym, ◌∙◌, ap, subst, Option, none, some, List, [], ◌∷◌, ◌++◌, map}
use psi.Prelude.Bytes.{Bytes}
use psi.UbPsi.Offline.{Row}
use psi.UbPsi.Common.{index_of}
use psi.UbPsi.Whole.{client_row, server_row, common_of_client, common_of_server}
use psi.UbPsi.ServerSource.{row_data}

abbrev pub RowData : Type 0
RowData = Bytes × ℕ × ℕ

module _ {A B : Type 0} (f : A → List B) where
  abbrev flat : List A → List B
  flat [] = []
  flat (x ∷ xs) = f x ++ flat xs

  flat-perm : {xs ys : List A} → Permᴰ xs ys → Permᴰ (flat xs) (flat ys)
  flat-perm Permᴰ.nil = Permᴰ.refl []
  flat-perm (Permᴰ.cons {a = a} {l₁ = l'} {l₂ = l} e d) =
      subst (λ x. Permᴰ (f a ++ flat l') (f x ++ flat l)) e (Permᴰ.append_left (f a) (flat-perm d))
  flat-perm (Permᴰ.swap {a = a} {b = b} {b' = b'} {l = l} e₁ e₂) =
      subst (λ x. Permᴰ (f a ++ (f b ++ flat l)) (f x ++ (f b' ++ flat l))) e₂
        (subst (λ y. Permᴰ (f a ++ (f b ++ flat l)) (f b ++ (f y ++ flat l))) e₁
          (subst (λ r. Permᴰ r (f b ++ (f a ++ flat l))) (append_assoc (f a) (f b) (flat l))
            (subst (λ r. Permᴰ ((f a ++ f b) ++ flat l) r) (append_assoc (f b) (f a) (flat l))
              (Permᴰ.append_right (flat l) (Permᴰ.append_comm (f a) (f b))))))
  flat-perm (Permᴰ.trans d₁ d₂) = Permᴰ.trans (flat-perm d₁) (flat-perm d₂)

abbrev index_with : Option ℕ → ℕ → List (ℕ × ℕ)
index_with none cnt = []
index_with (some i) cnt = (i, cnt) ∷ []

abbrev row_with : (ℕ → ℕ) → Option ℕ → ℕ → List (ℕ × ℕ)
row_with cnt none row_index = []
row_with cnt (some i) row_index = (row_index, cnt i) ∷ []

client_row-flat :
    (o : Option ℕ) (r : Row) (rows : List (ℕ × ℕ))
    → client_row o r rows ≡ index_with o r.dup_cnt ++ rows
client_row-flat none r rows = refl
client_row-flat (some i) r rows = refl

server_row-flat :
    (cnt : ℕ → ℕ) (o : Option ℕ) (r : Row) (rows : List (ℕ × ℕ))
    → server_row cnt o r rows ≡ row_with cnt o r.row_index ++ rows
server_row-flat cnt none r rows = refl
server_row-flat cnt (some i) r rows = refl

module _ (cnt : ℕ → ℕ) (items : List Bytes) where
  abbrev of_client : RowData → List (ℕ × ℕ)
  of_client (item, row_index, dup_cnt) = index_with (index_of items item) dup_cnt

  abbrev of_server : RowData → List (ℕ × ℕ)
  of_server (item, row_index, dup_cnt) = row_with cnt (index_of items item) row_index

  common_of_client-flat :
      (rows : List Row) → common_of_client items rows ≡ flat of_client (map row_data rows)
  unfolding common_of_client
  common_of_client-flat [] = refl
  common_of_client-flat (r ∷ rows) =
      client_row-flat (index_of items r.item) r (common_of_client items rows)
      ∙ ap (λ l. of_client (row_data r) ++ l) (common_of_client-flat rows)

  common_of_server-flat :
      (rows : List Row) → common_of_server cnt items rows ≡ flat of_server (map row_data rows)
  unfolding common_of_server
  common_of_server-flat [] = refl
  common_of_server-flat (r ∷ rows) =
      server_row-flat cnt (index_of items r.item) r (common_of_server cnt items rows)
      ∙ ap (λ l. of_server (row_data r) ++ l) (common_of_server-flat rows)

  -- The results of the same rows in another order are the same in another order.
  pub common_of_client-perm :
      (rows rows' : List Row)
      → Permᴰ (map row_data rows) (map row_data rows')
      → Permᴰ (common_of_client items rows) (common_of_client items rows')
  common_of_client-perm rows rows' d =
      subst (λ l. Permᴰ l (common_of_client items rows')) (sym (common_of_client-flat rows))
        (subst (Permᴰ (flat of_client (map row_data rows))) (sym (common_of_client-flat rows'))
          (flat-perm of_client d))

  pub common_of_server-perm :
      (rows rows' : List Row)
      → Permᴰ (map row_data rows) (map row_data rows')
      → Permᴰ (common_of_server cnt items rows) (common_of_server cnt items rows')
  common_of_server-perm rows rows' d =
      subst (λ l. Permᴰ l (common_of_server cnt items rows')) (sym (common_of_server-flat rows))
        (subst (Permᴰ (flat of_server (map row_data rows))) (sym (common_of_server-flat rows'))
          (flat-perm of_server d))
