-- ===== src/Queue/Threads/Invariant.antt =====
-- What holds in every state that a producer and a worker can reach, in whatever order they move.
use iocp_server.Base.{
  ◌≡◌, refl, sym, ap, ap₂, ◌∙◌, Bool, true, false, List, [], ◌∷◌, ◌++◌, arith, subst, get_or,
  get_or-set_self, get_or-set_ne, length-set, ◌==◌, Bool-cases, ==-false→ne, ne→==, append_assoc,
  inl, inr,
}
use iocp_server.Queue.{init, next_index}
use iocp_server.Queue.Bounds.{IsValid, init-IsValid}
use iocp_server.Queue.Refine.{contents, contents_some}
use iocp_server.Queue.Threads.{
  Producer, outside, loaded, has_room, stored, Worker, polling, saw_input, not_empty, in_front,
  called, pop_output, pop_ready, pop_moved, stopped, System, Turn, produces, works, start, produce,
  work, step, run,
}
use iocp_server.Queue.Threads.Fitting.{
  ProducerFits, WorkerFits, WorkerFits-keep, ProducerFits-keep, contents-publish, contents-store,
  advance,
}

module _ {ℓ} {A : Type ℓ} (fresh : A) where
  pub record Inv (s : System A) : Type ℓ where
    pub valid : IsValid s.shared
    pub in_order : s.published ≡ s.popped ++ contents fresh s.shared
    pub producer_fits : ProducerFits fresh s.producer s.shared
    pub worker_fits : WorkerFits fresh s.worker s.shared s.delivered s.popped

  pub start-Inv : Inv (start fresh)
  unfolding start init
  start-Inv = record {
    valid = unfold init in init-IsValid fresh;
    in_order = refl;
    producer_fits = tt;
    worker_fits = refl;
  }

  produce-Inv :
      (x : A) (p : Producer A) (s : System A)
      → ProducerFits fresh p s.shared
      → Inv s
      → Inv (produce fresh x p s)
  unfolding produce
  produce-Inv x outside s fits v = record {
    valid = v.valid;
    in_order = v.in_order;
    producer_fits = (refl, tt);
    worker_fits = v.worker_fits;
  }
  produce-Inv x (loaded y i) s fits v = elim (Bool-cases (next_index i == s.shared.output_index)) [
    | inl full ↦ rw full (record {
      valid = v.valid;
      in_order = v.in_order;
      producer_fits = tt;
      worker_fits = v.worker_fits;
    })
    | inr room ↦ rw room (record {
      valid = v.valid;
      in_order = v.in_order;
      producer_fits = (fits.0, ==-false→ne _ _ room, tt);
      worker_fits = v.worker_fits;
    })
  ]
  produce-Inv x (has_room y i) s fits v = record {
    valid = ground (arith, length-set s.shared.buffer i y);
    in_order =
        v.in_order
        ∙ ap (λ l. s.popped ++ l) (sym (contents-store fresh s.shared i y v.valid fits.0));
    producer_fits = (
      fits.0,
      fits.1,
      get_or-set_self s.shared.buffer i y fresh (omega (arith, v.valid, fits.0)),
    );
    worker_fits =
        WorkerFits-keep fresh s.worker s.shared _ s.delivered s.popped refl
          (λ n.
            get_or-set_ne s.shared.buffer i s.shared.output_index y fresh
              (omega (arith, n, fits.0)))
          (λ n. n) v.worker_fits;
  }
  produce-Inv x (stored y i) s fits v = record {
    valid = ground arith;
    in_order =
        ap₂ ◌++◌ v.in_order (ap (λ a. a ∷ []) (sym fits.2))
        ∙ append_assoc s.popped (contents fresh s.shared) (get_or s.shared.buffer i fresh ∷ [])
        ∙ ap (λ l. s.popped ++ l) (sym (contents-publish fresh s.shared i v.valid fits.0 fits.1));
    producer_fits = tt;
    worker_fits =
        WorkerFits-keep fresh s.worker s.shared _ s.delivered s.popped refl (λ _. refl)
          (λ _. fits.1) v.worker_fits;
  }

  work-Inv :
      (server_on callback : Bool) (w : Worker A) (s : System A)
      → WorkerFits fresh w s.shared s.delivered s.popped
      → Inv s
      → Inv (work fresh server_on callback w s)
  unfolding work
  work-Inv true callback polling s fits v = record {
    valid = v.valid;
    in_order = v.in_order;
    producer_fits = v.producer_fits;
    worker_fits = (fits, λ h. h);
  }
  work-Inv false callback polling s fits v = record {
    valid = v.valid;
    in_order = v.in_order;
    producer_fits = v.producer_fits;
    worker_fits = fits;
  }
  work-Inv server_on callback (saw_input i) s fits v =
      elim (Bool-cases (i == s.shared.output_index)) [
        | inl same ↦ rw same (record {
          valid = v.valid;
          in_order = v.in_order;
          producer_fits = v.producer_fits;
          worker_fits = fits.0;
        })
        | inr apart ↦ rw apart (record {
          valid = v.valid;
          in_order = v.in_order;
          producer_fits = v.producer_fits;
          worker_fits = (fits.0, fits.1 (==-false→ne _ _ apart));
        })
      ]
  work-Inv server_on true not_empty s fits v = record {
    valid = v.valid;
    in_order = v.in_order;
    producer_fits = v.producer_fits;
    worker_fits = (fits.0, refl, fits.1);
  }
  work-Inv server_on false not_empty s fits v = record {
    valid = v.valid;
    in_order = v.in_order;
    producer_fits = v.producer_fits;
    worker_fits = fits.0;
  }
  work-Inv server_on callback (in_front o) s fits v = record {
    valid = v.valid;
    in_order = v.in_order;
    producer_fits = v.producer_fits;
    worker_fits = (
      ap (λ l. l ++ get_or s.shared.buffer o fresh ∷ []) fits.0,
      ap (λ k. get_or s.shared.buffer k fresh) fits.1,
      fits.2,
    );
  }
  work-Inv server_on callback (called x) s fits v = record {
    valid = v.valid;
    in_order = v.in_order;
    producer_fits = v.producer_fits;
    worker_fits = (fits.0, fits.1, refl, fits.2);
  }
  work-Inv server_on callback (pop_output x o) s fits v =
      rw (ne→== o s.shared.input_index (omega (arith, fits.2, fits.3))) (record {
        valid = v.valid;
        in_order = v.in_order;
        producer_fits = v.producer_fits;
        worker_fits = fits;
      })
  work-Inv server_on callback (pop_ready x o) s fits v = record {
    valid = v.valid;
    in_order = v.in_order;
    producer_fits = v.producer_fits;
    worker_fits = (fits.0, fits.1, fits.2, fits.3, ap (λ k. get_or s.shared.buffer k fresh) fits.2);
  }
  work-Inv server_on callback (pop_moved x o y) s fits v = record {
    valid = ground arith;
    in_order =
        v.in_order
        ∙ ap (λ l. s.popped ++ l) (contents_some fresh v.valid fits.3)
        ∙ ap₂ (λ z k. s.popped ++ z ∷ contents fresh (advance fresh s.shared k)) (sym fits.4)
            (sym fits.2)
        ∙ sym (append_assoc s.popped (y ∷ []) (contents fresh (advance fresh s.shared o)));
    producer_fits =
        subst (λ k. ProducerFits fresh s.producer (advance fresh s.shared k)) (sym fits.2)
          (ProducerFits-keep fresh s.producer s.shared v.valid fits.3 v.producer_fits);
    worker_fits = fits.0 ∙ ap (λ z. s.popped ++ z ∷ []) (fits.1 ∙ sym fits.4);
  }
  work-Inv server_on callback stopped s fits v = v

  pub step-Inv : (t : Turn A) (s : System A) → Inv s → Inv (step fresh t s)
  unfolding step
  step-Inv (produces x) s v = produce-Inv x s.producer s v.producer_fits v
  step-Inv (works server_on callback) s v = work-Inv server_on callback s.worker s v.worker_fits v

  pub run-Inv : (ts : List (Turn A)) (s : System A) → Inv s → Inv (run fresh ts s)
  unfolding run
  run-Inv [] s v = v
  run-Inv (t ∷ ts) s v = run-Inv ts (step fresh t s) (step-Inv t s v)
