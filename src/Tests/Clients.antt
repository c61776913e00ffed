-- ===== src/Tests/Clients.antt =====
-- A kind whose objects are numbers, in one namespace, on a server that holds a list of them.
use mathlib.Core.Option.{some-injective, none-ne-some}
use k_mesh.Base.{
  ℕ, ◌≡◌, ◌≢◌, ◌↔◌, refl, sym, ap, ◌∙◌, inl, inr, Bool, true, false, Option, none, some, List, [],
  ◌∷◌, ◌++◌, In, arith, if◌then◌else◌,
}
use k_mesh.Base.Text.{Text, text, text_eq, text_eq_iff}
use k_mesh.Base.Result.{Err, not_found, failure, Result, ok, err, ok-injective, ok-ne-err}
use k_mesh.Clientset.{Kind, ObjectList, Interface, Agree}
use k_mesh.Clientset.Typed.{Params, list_params, Body, options_body, Rest, typed_client}
use k_mesh.Clientset.Typed.Laws.{Serves, object_route, typed_client-Agree}
use k_mesh.Clientset.Dynamic.{Dynamic, Json, convert, dynamic_client}
use k_mesh.Clientset.Dynamic.Laws.{Serves as Represents, represented, dynamic_client-Agree}
use k_mesh.Listers.{Indexer, lister_get, namespace_lister_list}
use k_mesh.Listers.Laws.{Holds, lister_get-namespace_lister_list}

abbrev pub numbers : Kind
numbers = record {
  Object = ℕ;
  ListMeta = Unit {0};
  Options = ℕ;
  Bytes = ℕ;
  Watch = Bool;
  resource = text "numbers";
  singular = text "number";
  kind = text "Number";
  namespace_of = λ n. text "a";
  name_of = λ n. n ∷ [];
  labels_of = λ n. [];
  with_kind = λ k n. n;
}

abbrev one_name : Text → List ℕ → Result ℕ
one_name name [] = err (not_found name)
one_name name (n ∷ ns) = if text_eq (n ∷ []) name then ok n else one_name name ns

abbrev remove : Text → List ℕ → List ℕ
remove name [] = []
remove name (n ∷ ns) = if text_eq (n ∷ []) name then ns else n ∷ remove name ns

abbrev pub api : Text → Interface numbers (List ℕ)
api ns = record {
  create = λ n x s. (s ++ n ∷ [], ok n);
  update = λ n x s. (s, ok n);
  update_status = λ n x s. (s, ok n);
  delete = λ name x s. (remove name s, none);
  delete_collection = λ x l s. ([], none);
  get = λ name x s. (s, one_name name s);
  list = λ l s. (s, ok (record { meta = tt; items = s }));
  watch = λ l s. (s, ok l.watch);
  patch = λ name t p x subs s. (remove name s ++ p ∷ [], ok p);
}

-- What the server does on a request, by the operation that it stands for.
abbrev answered : Option (List ℕ → List ℕ × Result ℕ) → List ℕ → List ℕ × Result ℕ
answered none s = (s, err (failure []))
answered (some f) s = f s

abbrev listed : Option (Params numbers) → Text → List ℕ → List ℕ × Result (ObjectList numbers)
listed (some (list_params l)) ns s = (api ns).list l s
listed _ ns s = (s, err (failure []))

abbrev watched : Option (Params numbers) → Text → List ℕ → List ℕ × Result Bool
watched (some (list_params l)) ns s = (api ns).watch l s
watched _ ns s = (s, err (failure []))

abbrev deleted :
    Option Text
    → Option (Params numbers)
    → Option (Body numbers)
    → Text
    → List ℕ
    → List ℕ × Option Err
deleted (some n) none (some (options_body x)) ns s = (api ns).delete n x s
deleted none (some (list_params l)) (some (options_body x)) ns s = (api ns).delete_collection x l s
deleted _ _ _ ns s = (s, some (failure []))

abbrev rest : Rest numbers
rest = record {
  Server = List ℕ;
  into = λ q.
      answered (object_route api (api q.namespace) q.verb q.name q.sub_resources q.params q.body);
  into_list = λ q. listed q.params q.namespace;
  into_watch = λ q. watched q.params q.namespace;
  into_error = λ q. deleted q.name q.params q.body q.namespace;
}

rest-Serves : Serves api rest.into rest.into_list rest.into_watch rest.into_error
rest-Serves = record {
  serves_object = λ q f s r t e. ap (λ o. answered o s) e;
  serves_list = λ q l s a v b. ap (λ p. listed p q.namespace s) a.2;
  serves_watch = λ q l s a v b w. ap (λ p. watched p q.namespace s) a.2;
  serves_delete = λ q n x s a v m p t b. rw (m, p, b);
  serves_delete_collection = λ q x l s a v b. rw (a.1, a.2, b);
}

typed_client-Agree_example :
    Agree
      (typed_client rest (text "a"))
      (record (api (text "a")) { watch = λ l. (api (text "a")).watch (record l { watch = true }) })
typed_client-Agree_example = typed_client-Agree rest api (text "a") rest-Serves

-- An unstructured object is the number itself, and its text the list of it.
abbrev dynamic : Dynamic numbers
dynamic = record {
  Server = List ℕ;
  Unstructured = ℕ;
  UnstructuredList = Text;
  create = λ r ns. (api ns).create;
  update = λ r ns. (api ns).update;
  update_status = λ r ns. (api ns).update_status;
  delete = λ r ns. (api ns).delete;
  delete_collection = λ r ns. (api ns).delete_collection;
  get = λ r ns. (api ns).get;
  list = λ r ns l s. (s, ok s);
  patch = λ r ns. (api ns).patch;
}

abbrev one_number : Text → Result ℕ
one_number (n ∷ []) = ok n
one_number _ = err (failure (text "not a number"))

abbrev json : Json numbers dynamic
json = record {
  marshal_object = λ n. ok (n ∷ []);
  unmarshal_object = one_number;
  marshal_unstructured = λ n. ok (n ∷ []);
  unmarshal_unstructured = one_number;
  marshal_list = λ t. ok t;
  unmarshal_list = λ t. ok (record { meta = tt; items = t });
}

same_represented : (r : List ℕ × Result ℕ) → r ≡ represented (λ (n : ℕ). n) r
same_represented (s, ok n) = refl
same_represented (s, err e) = refl

dynamic-Represents : Represents dynamic json (text "a") (api (text "a"))
unfolding convert
dynamic-Represents = record {
  object = λ n. n;
  objects = λ l. l.items;
  encode = λ g n named. refl;
  decode = λ n. refl;
  decode_list = λ l. refl;
  create = λ n x s. refl;
  update = λ n x s. refl;
  update_status = λ n x s. refl;
  delete = λ n x s. refl;
  delete_collection = λ x l s. refl;
  get = λ n x s. same_represented (s, one_name n s);
  list = λ l s. refl;
  patch = λ n t p x subs s. refl;
}

dynamic_client-Agree_example :
    Agree (dynamic_client dynamic json (text "a")) (record (api (text "a")) {
      watch = λ l s. (s, err (failure (text "NYI: Watch")));
      patch = λ n t p x subs. (api (text "a")).patch n t p x [];
    })
dynamic_client-Agree_example =
    dynamic_client-Agree dynamic json (text "a") (api (text "a")) dynamic-Represents (λ e. cc e)

-- An indexer that holds the number 7.
abbrev seven : Text
seven = text "a" ++ (text "/" ++ 7 ∷ [])

abbrev indexer : Indexer numbers
indexer = record {
  Selector = Unit {0};
  list_all = λ _. (7 ∷ [], none);
  list_all_by_namespace = λ ns _. (if text_eq ns (text "a") then 7 ∷ [] else [], none);
  get_by_key = λ k. if text_eq k seven then ok (some 7) else ok none;
}

false-ne-true : false ≡ true → ⊥
false-ne-true h = cc

one_by_key_lem :
    (k : Text) (o : ℕ) (b : Bool)
    → ((b ≡ true) ↔ (k ≡ seven))
    → ((if b then ok (some 7) else ok none) ≡ ok (some o))
      ↔ (In o (7 ∷ []) × (◌≡◌ {A = Text} (text "a" ++ (text "/" ++ o ∷ [])) k))
one_by_key_lem k o true i = (
  λ h.
      let e : o ≡ 7 = sym (some-injective 7 o (ok-injective h)) in
      (inl e, ap (λ n. text "a" ++ (text "/" ++ n ∷ [])) e ∙ sym (i.0 refl)),
  λ (m, p). elim m [ inl e ↦ ap (λ n. ok (some n)) (sym e) | inr no_more ↦ absurd no_more ],
)
one_by_key_lem k o false i = (
  λ h. absurd (none-ne-some o (ok-injective h)),
  λ (m, p). elim m [
    | inl e ↦
        let q : k ≡ seven = sym p ∙ ap (λ n. text "a" ++ (text "/" ++ n ∷ [])) e in
        absurd (false-ne-true (i.1 q))
    | inr no_more ↦ absurd no_more
  ],
)

by_namespace_lem :
    (ns : Text) (o : ℕ) (b : Bool)
    → ((b ≡ true) ↔ (ns ≡ text "a"))
    → In o (if b then 7 ∷ [] else []) ↔ (In o (7 ∷ []) × (text "a" ≡ ns))
by_namespace_lem ns o true i = (λ m. (m, sym (i.0 refl)), λ (m, p). m)
by_namespace_lem ns o false i = (λ m. absurd m, λ (m, p). absurd (false-ne-true (i.1 (sym p))))

no_errors_lem :
    (b : Bool) (e : Err) → ◌≢◌ {A = Result (Option ℕ)} (if b then ok (some 7) else ok none) (err e)
no_errors_lem true e h = ok-ne-err h
no_errors_lem false e h = ok-ne-err h

indexer-Holds : Holds indexer tt (7 ∷ [])
indexer-Holds = record {
  no_slash = λ o m. (λ h. omega (arith, h), tt);
  one_by_key = λ k o. one_by_key_lem k o (text_eq k seven) (text_eq_iff k seven);
  no_errors = λ k e. no_errors_lem (text_eq k seven) e;
  by_namespace =
      λ ns o ne. by_namespace_lem ns o (text_eq ns (text "a")) (text_eq_iff ns (text "a"));
}

lister_get-namespace_lister_list_example :
    (lister_get indexer (text "a") (7 ∷ []) ≡ ok 7)
    ↔ (In 7 (namespace_lister_list indexer (text "a") tt).0 × (◌≡◌ {A = Text} (7 ∷ []) (7 ∷ [])))
lister_get-namespace_lister_list_example =
    lister_get-namespace_lister_list indexer tt (7 ∷ []) indexer-Holds (text "a") (7 ∷ []) 7
      (λ e. cc e) (λ h. omega (arith, h), tt)
