-- ===== src/Files/Transfer.antt =====
-- Reading and writing through an open file, `open_file_read` and `open_file_write` of
-- `kernel/io/openfile.c`.
use unidos.Base.{ℕ, ◌≡◌, ◌⊎◌, refl, ◌∙◌, ap, Option, none, some, Option-cases, inl, inr}
use unidos.Files.{Files, Ssize, count, negative, IoFn}

abbrev pub esuccess : ℕ
esuccess = 0

abbrev pub enosys : ℕ
enosys = 0x26

abbrev pub ebadfd : ℕ
ebadfd = 0x4d

-- The result and `*err_out`; the code is only written where `err_out` is not `NULL`.
abbrev pub report : Ssize → Ssize × ℕ
report (negative e) = (count 0, e)
report (count n) = (count n, esuccess)

-- The two tests of `io_ops`, and the call.
abbrev read_by : Option IoFn → ℕ → ℕ → ℕ → ℕ → Ssize
read_by none t buffer len offset = negative enosys
read_by (some fn) t buffer len offset = fn t buffer len offset

abbrev write_by : Option IoFn → ℕ → ℕ → ℕ → ℕ → Ssize × ℕ
write_by none t buffer len offset = (count 0, enosys)
write_by (some fn) t buffer len offset = report (fn t buffer len offset)

module _ {M : Type 0} where
  -- The file's target and the function that it reads or writes with.
  abbrev pub target_of : Option ℕ → Files M → Option ℕ
  target_of none f = none
  target_of (some o) f = (f.openfiles o).target

  abbrev read_from : Option ℕ → ℕ → ℕ → ℕ → Files M → Ssize
  read_from none buffer len offset f = negative ebadfd
  read_from (some t) buffer len offset f = read_by (f.ftargets t).read t buffer len offset

  abbrev write_to : Option ℕ → ℕ → ℕ → ℕ → Files M → Ssize × ℕ
  write_to none buffer len offset f = (count 0, ebadfd)
  write_to (some t) buffer len offset f = write_by (f.ftargets t).write t buffer len offset

  unfoldable pub open_file_read : Option ℕ → ℕ → ℕ → ℕ → Files M → Ssize
  open_file_read of buffer len offset f = read_from (target_of of f) buffer len offset f

  unfoldable pub open_file_write : Option ℕ → ℕ → ℕ → ℕ → Files M → Ssize × ℕ
  open_file_write of buffer len offset f = write_to (target_of of f) buffer len offset f

  -- What a write comes to: the function of the target has taken `n` bytes; or nothing is said to be
  -- written, with an error: there is no file or it has no target, the target cannot be written to, or
  -- its function has answered with the error.
  abbrev pub Reports : Option ℕ → ℕ → ℕ → ℕ → Files M → Ssize × ℕ → Type 0
  Reports of buffer len offset f (s, e) =
      ((t : ℕ) × (fn : IoFn) × (n : ℕ) × (target_of of f ≡ some t)
        × ((f.ftargets t).write ≡ some fn)
        × (fn t buffer len offset ≡ count n)
        × (s ≡ count n)
        × (e ≡ esuccess))
      ⊎ ((s ≡ count 0)
          × (((target_of of f ≡ none) × (e ≡ ebadfd))
              ⊎ (((t : ℕ) × (target_of of f ≡ some t)
                    × ((f.ftargets t).write ≡ none)
                    × (e ≡ enosys))
                  ⊎ ((t : ℕ) × (fn : IoFn) × (target_of of f ≡ some t)
                      × ((f.ftargets t).write ≡ some fn)
                      × (fn t buffer len offset ≡ negative e)))))

  module _ (f : Files M) (buffer len offset : ℕ) where
    write-bad :
        (of : Option ℕ)
        → target_of of f ≡ none
        → open_file_write of buffer len offset f ≡ (count 0, ebadfd)
    unfolding open_file_write
    write-bad of e = ap (λ x. write_to x buffer len offset f) e

    write-none :
        (of : Option ℕ) (t : ℕ)
        → target_of of f ≡ some t
        → (f.ftargets t).write ≡ none
        → open_file_write of buffer len offset f ≡ (count 0, enosys)
    unfolding open_file_write
    write-none of t e w =
        ap (λ x. write_to x buffer len offset f) e ∙ ap (λ x. write_by x t buffer len offset) w

    pub write-some :
        (of : Option ℕ) (t : ℕ) (fn : IoFn)
        → target_of of f ≡ some t
        → (f.ftargets t).write ≡ some fn
        → open_file_write of buffer len offset f ≡ report (fn t buffer len offset)
    unfolding open_file_write
    write-some of t fn e w =
        ap (λ x. write_to x buffer len offset f) e ∙ ap (λ x. write_by x t buffer len offset) w

    written-Reports :
        (of : Option ℕ) (t : ℕ) (fn : IoFn) (r : Ssize)
        → target_of of f ≡ some t
        → (f.ftargets t).write ≡ some fn
        → fn t buffer len offset ≡ r
        → Reports of buffer len offset f (report r)
    written-Reports of t fn (count n) e w is = inl (t, fn, n, e, w, is, refl, refl)
    written-Reports of t fn (negative c) e w is = inr (refl, inr (inr (t, fn, e, w, is)))

    -- `open_file_write` reports the number of bytes that the function of the file's target has taken,
    -- with success; or that nothing is written, with the error EBADFD where there is no file or it has
    -- no target, ENOSYS where the target has no function to write with, and the function's own error
    -- where that is its answer.
    pub open_file_write-Reports :
        (of : Option ℕ) → Reports of buffer len offset f (open_file_write of buffer len offset f)
    open_file_write-Reports of = elim (Option-cases (target_of of f)) [
      | inl e ↦ rw (write-bad of e) (inr (refl, inl (e, refl)))
      | inr (t, e) ↦ elim (Option-cases (f.ftargets t).write) [
        | inl w ↦ rw (write-none of t e w) (inr (refl, inr (inl (t, e, w, refl))))
        | inr (fn, w) ↦
            rw (write-some of t fn e w) (written-Reports of t fn (fn t buffer len offset) e w refl)
      ]
    ]
