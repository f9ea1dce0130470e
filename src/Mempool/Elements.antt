-- ===== src/Mempool/Elements.antt =====
-- The pool's list and map: finding, adding and removing an element.
use bft.Base.{
  ℕ, suc, ◌+◌, ◌≤◌, ◌<◌, ◌≡◌, ◌≢◌, refl, true, false, Option, none, some, List, [], ◌∷◌, ◌++◌,
  arith, ◌==◌, if◌then◌else◌, length, Bytes, bytes_equal, bytes_equal_iff,
}
use bft.Base.Assoc.{lookup}
use bft.Mempool.{Element, find_element, remove_element, add_sender, delete_key}
use bft.Mempool.TxCache.{member}

-- The bytes of the transactions of a list.
abbrev pub total_bytes : List Element → ℕ
total_bytes [] = 0
total_bytes (e ∷ es) = length e.tx + total_bytes es

-- The numbers in use are below the next one.
abbrev pub Below : ℕ → List Element → Type 0
Below n [] = Unit {0}
Below n (e ∷ es) = (e.id < n) × Below n es

pub total_bytes-add :
    (es : List Element) (x : Element) → total_bytes (es ++ x ∷ []) ≡ total_bytes es + length x.tx
total_bytes-add [] x = omega arith
total_bytes-add (e ∷ es) x = omega (arith, total_bytes-add es x)

pub total_bytes-remove :
    (i : ℕ) (es : List Element) (e : Element)
    → find_element i es ≡ some e
    → total_bytes (remove_element i es) + length e.tx ≡ total_bytes es
unfolding find_element remove_element
total_bytes-remove i [] e h = absurd (cc)
total_bytes-remove i (x ∷ es) e h = ground (arith, total_bytes-remove i es e)

pub total_bytes-add_sender :
    (i : ℕ) (sender : Bytes) (es : List Element)
    → total_bytes (add_sender i sender es) ≡ total_bytes es
unfolding add_sender
total_bytes-add_sender i sender [] = refl
total_bytes-add_sender i sender (e ∷ es) = ground (arith, total_bytes-add_sender i sender es)

pub Below-more : (n : ℕ) (es : List Element) → Below n es → Below (suc n) es
Below-more n [] b = b
Below-more n (e ∷ es) (h, b) = (omega arith, Below-more n es b)

pub Below-add :
    (n : ℕ) (es : List Element) (x : Element) → x.id < n → Below n es → Below n (es ++ x ∷ [])
Below-add n [] x h b = (h, b)
Below-add n (e ∷ es) x h (k, b) = (k, Below-add n es x h b)

pub Below-remove : (n i : ℕ) (es : List Element) → Below n es → Below n (remove_element i es)
unfolding remove_element
Below-remove n i [] b = b
Below-remove n i (e ∷ es) (h, b) =
    elim (e.id == i) as (λ t. Below n (if t then es else e ∷ remove_element i es)) [
      | true ↦ b
      | false ↦ (h, Below-remove n i es b)
    ]

pub Below-add_sender :
    (n i : ℕ) (sender : Bytes) (es : List Element) → Below n es → Below n (add_sender i sender es)
unfolding add_sender
Below-add_sender n i sender [] b = b
Below-add_sender n i sender (e ∷ es) (h, b) =
    elim (e.id == i)
      as (λ t. Below n (
        if t
        then record e {
          senders = if member sender e.senders then e.senders else sender ∷ e.senders;
        }
          ∷ es
        else e ∷ add_sender i sender es)) [
          | true ↦ (h, b)
          | false ↦ (h, Below-add_sender n i sender es b)
        ]

-- A new element does not hide an old one.
pub find_element-old :
    (j : ℕ) (es : List Element) (x e : Element)
    → find_element j es ≡ some e
    → find_element j (es ++ x ∷ []) ≡ some e
unfolding find_element
find_element-old j [] x e h = absurd (cc)
find_element-old j (y ∷ es) x e h = ground (arith, find_element-old j es x e)

pub find_element-new :
    (n : ℕ) (es : List Element) (x : Element)
    → x.id ≡ n
    → Below n es
    → find_element n (es ++ x ∷ []) ≡ some x
unfolding find_element
find_element-new n [] x h b = ground arith
find_element-new n (y ∷ es) x h (k, b) =
    let rest = find_element-new n es x h b in ground (arith, rest)

pub find_element-remove :
    (i j : ℕ) (es : List Element) → i ≢ j → find_element j (remove_element i es) ≡ find_element j es
unfolding find_element remove_element
find_element-remove i j [] h = refl
find_element-remove i j (e ∷ es) h = ground (arith, find_element-remove i j es h)

-- The transaction of an element.
abbrev pub tx_at : ℕ → List Element → Option Bytes
tx_at i es = elim (find_element i es) [ none ↦ none | some e ↦ some e.tx ]

pub tx_at-add_sender :
    (i j : ℕ) (sender : Bytes) (es : List Element) → tx_at j (add_sender i sender es) ≡ tx_at j es
unfolding find_element add_sender
tx_at-add_sender i j sender [] = refl
tx_at-add_sender i j sender (x ∷ es) = ground (arith, tx_at-add_sender i j sender es)

pub lookup-delete_key :
    (k j : Bytes) (m : List (Bytes × ℕ))
    → lookup j (delete_key k m) ≡ (if bytes_equal k j then none else lookup j m)
unfolding lookup delete_key
lookup-delete_key k j [] = ground arith
lookup-delete_key k j ((l, v) ∷ m) =
    ground (
      arith,
      bytes_equal_iff k j,
      bytes_equal_iff l k,
      bytes_equal_iff l j,
      lookup-delete_key k j m,
    )

pub length-remove_element : (i : ℕ) (es : List Element) → length (remove_element i es) ≤ length es
unfolding remove_element
length-remove_element i [] = omega arith
length-remove_element i (e ∷ es) = ground (arith, length-remove_element i es)

pub length-add_sender :
    (i : ℕ) (sender : Bytes) (es : List Element) → length (add_sender i sender es) ≡ length es
unfolding add_sender
length-add_sender i sender [] = refl
length-add_sender i sender (e ∷ es) = ground (arith, length-add_sender i sender es)
