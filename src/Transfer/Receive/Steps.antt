-- ===== src/Transfer/Receive/Steps.antt =====
-- What the steps of the loop of `dmlog_file_receive` count, and its flag.
use dmlog.Base.{
  ℕ, zero, suc, ◌+◌, ◌-◌, ◌*◌, ◌^◌, ◌≤◌, ◌<◌, min, ◌≡◌, ◌⊎◌, inl, inr, refl, ap, sym, ◌∙◌, Bool,
  true, false, ◌||◌, List, [], ◌∷◌, ◌++◌, arith, length, take, drop, ltb, leb, ◌==◌, if◌then◌else◌,
}
use dmlog.Flag
use dmlog.Word.{bit, add32, has, raise, lower}
use dmlog.Word.Bits.{has-raise_self, has-lower_other}
use dmlog.Context.{Context, context_lock, context_unlock}
use dmlog.Transfer.{chunk, request}

pub kept_busy :
    (unlocked : Bool) (f : ℕ)
    → has (if unlocked then lower f Flag.busy else f) Flag.file_recv_req ≡ has f Flag.file_recv_req
unfolding bit
kept_busy true f = has-lower_other 7 f Flag.busy refl
kept_busy false f = refl

pub request-asked :
    (address : ℕ) (c : Context)
    → has (request address Flag.file_recv_req c).ring.flags Flag.file_recv_req ≡ true
unfolding request context_unlock bit
request-asked address c =
    kept_busy _ (raise (context_lock c).ring.flags Flag.file_recv_req)
    ∙ has-raise_self 7 (context_lock c).ring.flags Flag.file_recv_req refl

-- Steps of arithmetic of the loop.
pub still_more :
    (o n total_size total : ℕ)
    → 1 ≤ total
    → o + n ≡ total
    → (total_size ≡ total) ⊎ ((total_size ≡ 0) × (o ≡ 0))
    → (ltb o total_size || total_size == 0) ≡ true
    → 1 ≤ n
still_more o n total_size total some_data fits (inl told) more = ground arith
still_more o n total_size total some_data fits (inr fresh) more = ground (arith, fresh)

pub nothing_left :
    (xs : List ℕ) (o total_size total : ℕ)
    → 1 ≤ total
    → o + length xs ≡ total
    → (total_size ≡ total) ⊎ ((total_size ≡ 0) × (o ≡ 0))
    → (ltb o total_size || total_size == 0) ≡ false
    → xs ≡ []
nothing_left [] o total_size total some_data fits known all = refl
nothing_left (x ∷ xs) o total_size total some_data fits (inl told) all = absurd (ground arith)
nothing_left (x ∷ xs) o total_size total some_data fits (inr fresh) all =
    absurd (ground (arith, fresh))

pub chunk-le : (k n : ℕ) → 1 ≤ n → k ≡ min chunk n → (1 ≤ k) × (k ≤ n)
chunk-le k n some_left e = omega arith

pub advance :
    (o n total k o' n' : ℕ)
    → o + n ≡ total
    → total < 2 ^ 32
    → k ≤ n
    → o' ≡ o
    → n' ≡ n - k
    → add32 o' k + n' ≡ total
advance o n total k o' n' fits small le eo en = omega arith

pub nonempty :
    (k total_size total : ℕ)
    → 1 ≤ k
    → 1 ≤ total
    → total_size ≡ total
    → (k == 0 || total_size == 0) ≡ false
nonempty k total_size total some_k some_data e = ground arith

pub take-nil : (n : ℕ) → take {A = ℕ} n [] ≡ []
take-nil zero = refl
take-nil (suc n) = refl

-- What comes with a chunk of at most `m` bytes and what comes behind it.
pub take-chunk :
    (m n k : ℕ) (xs : List ℕ)
    → k ≡ min m (length xs)
    → take k xs ++ take n (drop k xs) ≡ take (m + n) xs
take-chunk m n zero [] e = take-nil n ∙ sym (take-nil (m + n))
take-chunk m n (suc k) [] e = absurd (omega arith)
take-chunk zero n zero (x ∷ xs) e = ap (λ i. take i (x ∷ xs)) (omega arith)
take-chunk (suc m) n zero (x ∷ xs) e = absurd (omega arith)
take-chunk zero n (suc k) (x ∷ xs) e = absurd (omega arith)
take-chunk (suc m) n (suc k) (x ∷ xs) e =
    ap (λ ys. x ∷ ys) (take-chunk m n k xs (omega arith)) ∙ ap (λ i. take i (x ∷ xs)) counted
  where
    counted : suc (m + n) ≡ suc m + n
    counted = omega arith

-- The rest of a file fits into the rest of the chunks just if the file fits into all of them.
pub leb-chunk :
    (size rest chunks k : ℕ)
    → k ≡ min chunk size
    → rest ≡ size - k
    → leb rest (chunks * chunk) ≡ leb size (suc chunks * chunk)
leb-chunk size rest chunks k e less = ground arith
