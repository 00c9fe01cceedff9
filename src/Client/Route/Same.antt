-- ===== src/Client/Route/Same.antt =====
-- Lists that differ only in their connections send each key to the same slave.
use distributed_db.Common.{
  ◌<◌, arith, ℕ, zero, suc, ◌+◌, ◌%◌, ◌≡◌, refl, ap, ◌∙◌, List, [], ◌∷◌, set, get_or, length,
  length-set,
}
use distributed_db.Slaves.{SlaveNode, SlaveList, blank, node_at, max_key}
use distributed_db.Slaves.{set_sock}
use distributed_db.Client.Route.{find_section, get_socket}

-- The same version, count, array length, and keys, addresses and ports of the nodes.
pub record SameKeys (sl sl' : SlaveList) : Type 0 where
  pub version : sl'.version ≡ sl.version
  pub num : sl'.num ≡ sl.num
  pub array : length sl'.nodes ≡ length sl.nodes
  pub key : (i : ℕ) → (node_at sl' i).key ≡ (node_at sl i).key
  pub ip : (i : ℕ) → (node_at sl' i).ip ≡ (node_at sl i).ip
  pub port : (i : ℕ) → (node_at sl' i).port ≡ (node_at sl i).port

pub SameKeys-refl : (sl : SlaveList) → SameKeys sl sl
SameKeys-refl sl = record {
  version = refl;
  num = refl;
  array = refl;
  key = λ i. refl;
  ip = λ i. refl;
  port = λ i. refl;
}

pub SameKeys-trans : (a b c : SlaveList) → SameKeys a b → SameKeys b c → SameKeys a c
SameKeys-trans a b c p q = record {
  version = q.version ∙ p.version;
  num = q.num ∙ p.num;
  array = q.array ∙ p.array;
  key = λ i. q.key i ∙ p.key i;
  ip = λ i. q.ip i ∙ p.ip i;
  port = λ i. q.port i ∙ p.port i;
}

-- What a node has besides its connection.
abbrev address : SlaveNode → ℕ × ℕ × ℕ
address n = (n.key, n.ip, n.port)

address-set :
    (xs : List SlaveNode) (i j sock : ℕ)
    → address (get_or (set xs i (record (get_or xs i blank) { sock = sock })) j blank)
      ≡ address (get_or xs j blank)
address-set [] i j sock = refl
address-set (x ∷ xs) zero zero sock = refl
address-set (x ∷ xs) zero (suc j) sock = refl
address-set (x ∷ xs) (suc i) zero sock = refl
address-set (x ∷ xs) (suc i) (suc j) sock = address-set xs i j sock

pub sock-set_sock :
    (xs : List SlaveNode) (i sock : ℕ)
    → i < length xs
    → (get_or (set xs i (record (get_or xs i blank) { sock = sock })) i blank).sock ≡ sock
sock-set_sock [] i sock h = absurd (omega arith)
sock-set_sock (x ∷ xs) zero sock h = refl
sock-set_sock (x ∷ xs) (suc i) sock h = sock-set_sock xs i sock (omega arith)

pub sock-set_other :
    (xs : List SlaveNode) (i j sock : ℕ)
    → j < i
    → (get_or (set xs i (record (get_or xs i blank) { sock = sock })) j blank).sock
      ≡ (get_or xs j blank).sock
sock-set_other [] i j sock h = refl
sock-set_other (x ∷ xs) zero j sock h = absurd (omega arith)
sock-set_other (x ∷ xs) (suc i) zero sock h = refl
sock-set_other (x ∷ xs) (suc i) (suc j) sock h = sock-set_other xs i j sock (omega arith)

pub set_sock-SameKeys : (i sock : ℕ) (sl : SlaveList) → SameKeys sl (set_sock i sock sl)
set_sock-SameKeys i sock sl = record {
  version = refl;
  num = refl;
  array = length-set sl.nodes i _;
  key = λ j. ap (λ n. n.0) (address-set sl.nodes i j sock);
  ip = λ j. ap (λ n. n.1) (address-set sl.nodes i j sock);
  port = λ j. ap (λ n. n.2) (address-set sl.nodes i j sock);
}

find_section-SameKeys :
    (sl sl' : SlaveList) (key n i : ℕ)
    → SameKeys sl sl'
    → find_section sl' key n i ≡ find_section sl key n i
unfolding find_section
find_section-SameKeys sl sl' key zero i h = refl
find_section-SameKeys sl sl' key (suc n) i h =
    rw (h.key i, h.num, h.key ((i + 1) % sl.num), find_section-SameKeys sl sl' key n (i + 1) h) refl

pub get_socket-SameKeys :
    (sl sl' : SlaveList) (key : ℕ) → SameKeys sl sl' → get_socket sl' key ≡ get_socket sl key
unfolding get_socket
get_socket-SameKeys sl sl' key h =
    find_section-SameKeys sl sl' (key % max_key) sl'.num 0 h
    ∙ ap (λ n. find_section sl (key % max_key) n 0) h.num
