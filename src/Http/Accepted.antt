-- ===== src/Http/Accepted.antt =====
-- What the query endpoints test before they send data.
use logstore_node.Base.{
  ℕ, ◌≡◌, ◌⊎◌, inl, inr, refl, sym, subst, ℤ, pos, Bool, true, Text, Option, none, some, Bool-cases,
  if◌then◌else◌, text_eq, ltb_int,
}
use logstore_node.Protocol.{QueryRequest}
use logstore_node.Http.Numbers.{Number, nan, number, parse_int}
use logstore_node.Http.Requests.{QueryRequestBag, error, query_request}
use logstore_node.Http.Endpoint.{
  Format, get_format, Mode, network, standalone, network_access, validate_user_query_access,
  HttpRequest, not_enough_balance, failed, HttpReply, bad_request, success, query_request_bag,
  respond, get_data_for_request, with_format, with_partition, create_handler,
}

module _ {D : Type 0} (process_query_request : QueryRequest → Option D) (is_inherited : Text → Bool)
    (mode : Mode) where
  -- The access check of the mode.
  abbrev pub MayRead : ℤ → Type 0
  MayRead balance = (mode ≡ standalone) ⊎ (ltb_int (pos 0) balance ≡ true)

  -- What a success tells of the tests before it, and of the request that was passed on.
  abbrev Passed :
      (n : Number) (o : Option Format) (balance : ℤ) (bag : ℤ → Option QueryRequestBag)
      → HttpReply D × ℕ
      → Type 0
  Passed n o balance bag (success data_ format, _) =
      MayRead balance
      × (o ≡ some format)
      × ((p : ℤ) × (q : QueryRequest) × (n ≡ number p)
          × (bag p ≡ some (query_request q))
          × (process_query_request q ≡ some data_))
  Passed n o balance bag (_, _) = Unit

  respond-Passed :
      (p : ℤ) (after : ℕ) (balance : ℤ) (format : Format) (bag : ℤ → Option QueryRequestBag)
      → MayRead balance
      → Passed
          (number p)
          (some format)
          balance
          bag
          (respond process_query_request is_inherited mode format (bag p), after)
  respond-Passed p after balance format bag h = by_bag (bag p) refl
    where
      by_data :
          (q : QueryRequest) (o : Option D)
          → bag p ≡ some (query_request q)
          → process_query_request q ≡ o
          → Passed
              (number p)
              (some format)
              balance
              bag
              (elim o [ none ↦ bad_request failed | some data_ ↦ success data_ format ], after)
      by_data q none e k = tt
      by_data q (some data_) e k = (h, refl, (p, q, refl, e, k))

      by_bag :
          (b : Option QueryRequestBag)
          → bag p ≡ b
          → Passed
              (number p)
              (some format)
              balance
              bag
              (respond process_query_request is_inherited mode format b, after)
      by_bag none e = tt
      by_bag (some (error x)) e = tt
      by_bag (some (query_request q)) e = by_data q (process_query_request q) e refl

  allowed : (balance : ℤ) → validate_user_query_access mode balance ≡ true → MayRead balance
  unfolding validate_user_query_access network_access
  allowed balance h =
      elim mode
          as (λ m.
            validate_user_query_access m balance ≡ true
            → (m ≡ standalone) ⊎ (ltb_int (pos 0) balance ≡ true)) [
              | network ↦ λ k. inr k
              | standalone ↦ λ k. inl refl
            ]
        h

  with_format-Passed :
      (seq_num : ℕ) (r : HttpRequest) (balance partition : ℤ) (o : Option Format)
      → Passed
          (number partition)
          o
          balance
          (λ p. (query_request_bag seq_num r p).0)
          (with_format process_query_request is_inherited mode seq_num r balance partition o)
  with_format-Passed seq_num r balance partition none = tt
  with_format-Passed seq_num r balance partition (some format) =
      let P =
        Passed (number partition) (some format) balance (λ p. (query_request_bag seq_num r p).0) in
      let reply =
        get_data_for_request process_query_request is_inherited mode seq_num r format partition in
      elim (Bool-cases (validate_user_query_access mode balance)) [
        | inl enough ↦
            subst (λ c. P (if c then reply else (bad_request not_enough_balance, seq_num)))
              (sym enough)
              (respond-Passed partition (query_request_bag seq_num r partition).1 balance format
                (λ p. (query_request_bag seq_num r p).0) (allowed balance enough))
        | inr poor ↦
            subst (λ c. P (if c then reply else (bad_request not_enough_balance, seq_num)))
              (sym poor) tt
      ]

  with_partition-Passed :
      (seq_num : ℕ) (r : HttpRequest) (balance : ℤ) (n : Number)
      → Passed n
          (get_format is_inherited r.format)
          balance
          (λ p. (query_request_bag seq_num r p).0)
          (with_partition process_query_request is_inherited mode seq_num r balance n)
  with_partition-Passed seq_num r balance nan = tt
  with_partition-Passed seq_num r balance (number partition) =
      with_format-Passed seq_num r balance partition (get_format is_inherited r.format)

  -- Data are sent only in standalone mode or to a consumer with a balance above zero, in the format
  -- that the lookup finds, and they are what the plugin answers to the request that the parameters
  -- make for the partition, which is a number.
  pub create_handler-success :
      (seq_num : ℕ) (r : HttpRequest) (balance : ℤ) (data_ : D) (format : Format)
      → (create_handler process_query_request is_inherited mode seq_num r balance).0
        ≡ success data_ format
      → MayRead balance
        × (get_format is_inherited r.format ≡ some format)
        × ((p : ℤ) × (q : QueryRequest) × (parse_int r.partition ≡ number p)
            × ((query_request_bag seq_num r p).0 ≡ some (query_request q))
            × (process_query_request q ≡ some data_))
  unfolding create_handler
  create_handler-success seq_num r balance data_ format h =
      subst
        (λ reply.
          Passed (parse_int r.partition) (get_format is_inherited r.format) balance
            (λ p. (query_request_bag seq_num r p).0)
            (reply, (create_handler process_query_request is_inherited mode seq_num r balance).1))
        h (with_partition-Passed seq_num r balance (parse_int r.partition))
