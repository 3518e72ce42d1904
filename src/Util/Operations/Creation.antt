-- ===== src/Util/Operations/Creation.antt =====
-- What createOperationInternal creates, and that it reuses what waits already.
use mathlib.Core.List.{Memᴰ}
use managed_gitops.Base.{
  ◌≡◌, ◌≢◌, refl, ap, sym, ◌∙◌, eq_iff, true, false, Option, none, some, List, [], ◌∷◌, String,
  ◌==◌, is_some, Bool-cases, inl, inr, arith,
}
use managed_gitops.Base.Client.{Result, ok, not_found, err, Result-cases}
use managed_gitops.Util.Operations.{
  waiting, Operation, OperationCr, GitopsEngineInstance, operation_cr_name, is_waiting, Answers,
  create_row, create_cr, Created, no_writes, find_waiting, new_row, new_cr, with_cr, with_row,
  with_waiting, with_instance, create_operation_internal,
}

-- The row waits, and its resource is on the cluster.
pub record IsPending (a : Answers) (namespace : String) (cr : OperationCr) (row : Operation)
    : Type 0 where
  pub listed : Memᴰ row a.list_operations
  pub waits : is_waiting row.state ≡ true
  pub on_cluster : a.get_cr (operation_cr_name row) namespace ≡ ok cr

-- The namespace is that of the instance.
pub record IsHome (a : Answers) (param : Operation) (namespace : String) : Type 0 where
  pub home : GitopsEngineInstance
  pub fetched : a.get_instance param.instance_id ≡ ok home
  pub same : namespace ≡ home.namespace_name
  pub named : namespace ≢ ""

-- The row of a call's request, before the database has given it an id.
pub record IsNew (param : Operation) (user : String) (row : Operation) : Type 0 where
  pub instance : row.instance_id ≡ param.instance_id
  pub resource : row.resource_id ≡ param.resource_id
  pub resource_kind : row.resource_type ≡ param.resource_type
  pub owner : row.operation_owner_user_id ≡ user
  pub waits : row.state ≡ waiting

-- The resource of a row.
pub record Names (row : Operation) (namespace : String) (cr : OperationCr) : Type 0 where
  pub of_row : cr.operation_id ≡ row.operation_id
  pub in_namespace : cr.namespace ≡ namespace
  pub found_by_name : cr.name ≡ operation_cr_name row

-- How a call ends.
pub data Ends (a : Answers) (param : Operation) (user namespace : String) : Created → Type 0 where
  refused : (e : String) → Ends a param user namespace (no_writes (err e))
  reused :
      (cr : OperationCr) (row : Operation)
      → IsHome a param namespace
      → IsPending a namespace cr row
      → Ends a param user namespace (no_writes (ok (cr, row)))
  row_refused :
      (new : Operation) (r : Result (OperationCr × Operation))
      → IsHome a param namespace
      → ((cr : OperationCr) (row : Operation) → ¬ IsPending a namespace cr row)
      → IsNew param user new
      → ((x : OperationCr × Operation) → r ≢ ok x)
      → Ends a param user namespace (record { writes = create_row new ∷ []; result = r })
  created :
      (new row : Operation) (cr : OperationCr) (r : Result (OperationCr × Operation))
      → IsHome a param namespace
      → ((cr : OperationCr) (row : Operation) → ¬ IsPending a namespace cr row)
      → IsNew param user new
      → a.create_row new ≡ ok row
      → Names row namespace cr
      → ((stored : OperationCr) (other : Operation)
          → r ≡ ok (stored, other)
          → (other ≡ row) × (a.create_cr cr ≡ ok stored))
      → Ends a param user namespace
          (record { writes = create_row new ∷ create_cr cr ∷ []; result = r })

-- What the loop finds is pending.
find_waiting_found :
    (a : Answers) (namespace : String) (rows : List Operation) (cr : OperationCr) (row : Operation)
    → find_waiting a namespace rows ≡ some (cr, row)
    → Memᴰ row rows
      × (is_waiting row.state ≡ true)
      × (a.get_cr (operation_cr_name row) namespace ≡ ok cr)
unfolding find_waiting
find_waiting_found a namespace [] cr row h = cc h
find_waiting_found a namespace (x ∷ rows) cr row h = elim (Bool-cases (is_waiting x.state)) [
  | inl w ↦ elim (Result-cases (a.get_cr (operation_cr_name x) namespace)) [
    | inl (c, g) ↦
        let e : some (c, x) ≡ some (cr, row) = rw (w, g) at h in
        let q : row ≡ x = cc e in (Memᴰ.head q, rw q w, rw q (g ∙ cc e))
    | inr (inl g) ↦ deeper (find_waiting_found a namespace rows cr row (rw (w, g) at h))
    | inr (inr (e, g)) ↦ deeper (find_waiting_found a namespace rows cr row (rw (w, g) at h))
  ]
  | inr w ↦ deeper (find_waiting_found a namespace rows cr row (rw w at h))
]
  where
    deeper :
        Memᴰ row rows
          × (is_waiting row.state ≡ true)
          × (a.get_cr (operation_cr_name row) namespace ≡ ok cr)
        → Memᴰ row (x ∷ rows)
          × (is_waiting row.state ≡ true)
          × (a.get_cr (operation_cr_name row) namespace ≡ ok cr)
    deeper (m, w, g) = (Memᴰ.tail m, w, g)

-- It finds something if a row of the list is pending.
find_waiting_some :
    (a : Answers) (namespace : String) (rows : List Operation) (cr : OperationCr) (row : Operation)
    → Memᴰ row rows
    → is_waiting row.state ≡ true
    → a.get_cr (operation_cr_name row) namespace ≡ ok cr
    → is_some (find_waiting a namespace rows) ≡ true
unfolding find_waiting
find_waiting_some a namespace [] cr row m w g = elim m [ ]
find_waiting_some a namespace (x ∷ rows) cr row (Memᴰ.head q) w g =
    let w' : is_waiting x.state ≡ true = ap (λ y. is_waiting y.state) (sym q) ∙ w in
    let g' : a.get_cr (operation_cr_name x) namespace ≡ ok cr =
      ap (λ y. a.get_cr (operation_cr_name y) namespace) (sym q) ∙ g in
    rw (w', g') refl
find_waiting_some a namespace (x ∷ rows) cr row (Memᴰ.tail m) w g =
    ground (arith, find_waiting_some a namespace rows cr row m w g)

module _ (a : Answers) (param : Operation) (user namespace : String) where
  is_new : IsNew param user (new_row a param user)
  unfolding new_row
  is_new = record {
    instance = refl;
    resource = refl;
    resource_kind = refl;
    owner = refl;
    waits = refl;
  }

  is_named : (row : Operation) → Names row namespace (new_cr row user namespace)
  unfolding new_cr
  is_named row = record { of_row = refl; in_namespace = refl; found_by_name = refl }

  with_row-Ends :
      IsHome a param namespace
      → ((cr : OperationCr) (row : Operation) → ¬ IsPending a namespace cr row)
      → (r : Result Operation) → a.create_row (new_row a param user) ≡ r
      → Ends a param user namespace (with_row a user namespace (new_row a param user) r)
  unfolding with_row with_cr
  with_row-Ends home f (ok row) e =
      created _ row _ _ home f is_new e (is_named row)
        (answered (a.create_cr (new_cr row user namespace)) refl)
    where
      answered :
          (r : Result OperationCr)
          → a.create_cr (new_cr row user namespace) ≡ r
          → (cr : OperationCr) (other : Operation) → with_cr row r ≡ ok (cr, other)
          → (other ≡ row) × (a.create_cr (new_cr row user namespace) ≡ ok cr)
      answered (ok stored) e' cr other h = (cc h, e' ∙ cc h)
      answered not_found e' cr other h = cc h
      answered (err x) e' cr other h = cc h
  with_row-Ends home f not_found e = row_refused _ not_found home f is_new (λ x h. cc h)
  with_row-Ends home f (err x) e = row_refused _ (err x) home f is_new (λ y h. cc h)

  with_waiting-Ends :
      IsHome a param namespace
      → (o : Option (OperationCr × Operation)) → find_waiting a namespace a.list_operations ≡ o
      → Ends a param user namespace (with_waiting a param user namespace o)
  unfolding with_waiting
  with_waiting-Ends home (some (cr, row)) f =
      let (m, w, g) = find_waiting_found a namespace a.list_operations cr row f in
      reused cr row home (record { listed = m; waits = w; on_cluster = g })
  with_waiting-Ends home none f =
      with_row-Ends home (nothing_pending f) (a.create_row (new_row a param user)) refl
    where
      nothing_pending :
          find_waiting a namespace a.list_operations ≡ none
          → (cr : OperationCr) (row : Operation) → ¬ IsPending a namespace cr row
      nothing_pending f cr row p =
          let s =
            find_waiting_some a namespace a.list_operations cr row p.listed p.waits p.on_cluster in
          cc (f, s)

  with_instance-Ends :
      (r : Result GitopsEngineInstance)
      → a.get_instance param.instance_id ≡ r
      → Ends a param user namespace (with_instance a param user namespace r)
  unfolding with_instance
  with_instance-Ends not_found e = refused _
  with_instance-Ends (err x) e = refused _
  with_instance-Ends (ok i) e = elim (Bool-cases (i.namespace_name == "")) [
    | inl b ↦ rw b (refused _)
    | inr b ↦ elim (Bool-cases (namespace == "")) [
      | inl c ↦ rw (b, c) (refused _)
      | inr c ↦ elim (Bool-cases (namespace == i.namespace_name)) [
        | inr d ↦ rw (b, c, d) (refused _)
        | inl d ↦
            rw (b, c, d)
              (with_waiting-Ends
                (record {
                  home = i;
                  fetched = e;
                  same = (eq_iff namespace i.namespace_name).0 d;
                  named = ground (arith, c, eq_iff namespace "");
                })
                (find_waiting a namespace a.list_operations) refl)
      ]
    ]
  ]

  -- A namespace that is the instance's own, and a row that is pending there: it is found.
  with_instance_pending :
      (cr : OperationCr) (row : Operation)
      → IsHome a param namespace
      → IsPending a namespace cr row
      → (with_instance a param user namespace (a.get_instance param.instance_id)).writes ≡ []
  unfolding with_instance with_waiting
  with_instance_pending cr row h p =
      let away : (h.home.namespace_name == "") ≡ false =
        ground (arith, h.same, h.named, eq_iff h.home.namespace_name "") in
      let named : (namespace == "") ≡ false = ground (arith, h.named, eq_iff namespace "") in
      let same : (namespace == h.home.namespace_name) ≡ true =
        (eq_iff namespace h.home.namespace_name).1 h.same in
      rw (h.fetched, with_instance)
        (rw (away, named, same)
          (found (find_waiting a namespace a.list_operations)
            (find_waiting_some a namespace a.list_operations cr row p.listed p.waits p.on_cluster)))
    where
      found :
          (o : Option (OperationCr × Operation))
          → is_some o ≡ true
          → (with_waiting a param user namespace o).writes ≡ []
      found none s = cc s
      found (some x) s = refl

-- Whatever the database and the cluster answer, the call is refused without a write; or it returns
-- a listed row that waits, with its resource on the cluster, and writes nothing; or no listed row
-- is pending and it stores a row for the request, in the state Waiting, and then creates the
-- resource that names the stored row, in the namespace of the instance, but no resource if the row
-- cannot be stored. It is done once: a later call for the instance that finds the row pending
-- writes nothing.
pub create_operation_once :
    (a later : Answers) (param : Operation) (user namespace : String) (cr : OperationCr)
    (row : Operation)
    → IsHome later param namespace
    → IsPending later namespace cr row
    → Ends a param user namespace (create_operation_internal a param user namespace)
      × ((create_operation_internal later param user namespace).writes ≡ [])
unfolding create_operation_internal
create_operation_once a later param user namespace cr row h p = (
  with_instance-Ends a param user namespace (a.get_instance param.instance_id) refl,
  with_instance_pending later param user namespace cr row h p,
)
