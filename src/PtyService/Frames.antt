-- ===== src/PtyService/Frames.antt =====
-- The frames of an attachment, in the order that the protocol promises.
use rclaude.Prelude.{ℕ, ◌≡◌, refl, List, [], ◌∷◌, ◌++◌, text_eq}
use rclaude.PtyService.{ServerFrame, attached_frame, stdout_frame, exited_frame, error_frame}

abbrev pub OnlyOutput : List ServerFrame → Type 0
OnlyOutput [] = Unit
OnlyOutput (stdout_frame _ ∷ frames) = OnlyOutput frames
OnlyOutput (_ ∷ frames) = ⊥

-- Output, and at most one last frame: the exit of the host or an error.
abbrev pub IsClosing : List ServerFrame → Type 0
IsClosing [] = Unit
IsClosing (stdout_frame _ ∷ frames) = IsClosing frames
IsClosing (exited_frame _ ∷ frames) = frames ≡ []
IsClosing (error_frame _ _ ∷ frames) = frames ≡ []
IsClosing (attached_frame _ ∷ frames) = ⊥

-- An attachment that runs: first the attached frame, then output.
abbrev pub IsTalking : List ServerFrame → Type 0
IsTalking (attached_frame _ ∷ frames) = OnlyOutput frames
IsTalking _ = ⊥

-- An attachment from beginning to end; one that is refused is at most an error.
abbrev pub IsConversation : List ServerFrame → Type 0
IsConversation [] = Unit
IsConversation (attached_frame _ ∷ frames) = IsClosing frames
IsConversation (error_frame _ _ ∷ frames) = frames ≡ []
IsConversation _ = ⊥

abbrev pub IsLast : ServerFrame → Type 0
IsLast (exited_frame _) = Unit
IsLast (error_frame _ _) = Unit
IsLast _ = ⊥

pub OnlyOutput-IsClosing : (frames : List ServerFrame) → OnlyOutput frames → IsClosing frames
OnlyOutput-IsClosing [] h = tt
OnlyOutput-IsClosing (stdout_frame _ ∷ frames) h = OnlyOutput-IsClosing frames h
OnlyOutput-IsClosing (attached_frame _ ∷ frames) h = elim h [ ]
OnlyOutput-IsClosing (exited_frame _ ∷ frames) h = elim h [ ]
OnlyOutput-IsClosing (error_frame _ _ ∷ frames) h = elim h [ ]

pub OnlyOutput-last :
    (frames : List ServerFrame) (f : ServerFrame)
    → OnlyOutput frames
    → IsLast f
    → IsClosing (frames ++ f ∷ [])
OnlyOutput-last [] (exited_frame _) h k = refl
OnlyOutput-last [] (error_frame _ _) h k = refl
OnlyOutput-last [] (attached_frame _) h k = elim k [ ]
OnlyOutput-last [] (stdout_frame _) h k = elim k [ ]
OnlyOutput-last (stdout_frame _ ∷ frames) f h k = OnlyOutput-last frames f h k
OnlyOutput-last (attached_frame _ ∷ frames) f h k = elim h [ ]
OnlyOutput-last (exited_frame _ ∷ frames) f h k = elim h [ ]
OnlyOutput-last (error_frame _ _ ∷ frames) f h k = elim h [ ]

pub OnlyOutput-more :
    (frames : List ServerFrame) (bytes : List ℕ)
    → OnlyOutput frames
    → OnlyOutput (frames ++ stdout_frame bytes ∷ [])
OnlyOutput-more [] bytes h = tt
OnlyOutput-more (stdout_frame _ ∷ frames) bytes h = OnlyOutput-more frames bytes h
OnlyOutput-more (attached_frame _ ∷ frames) bytes h = elim h [ ]
OnlyOutput-more (exited_frame _ ∷ frames) bytes h = elim h [ ]
OnlyOutput-more (error_frame _ _ ∷ frames) bytes h = elim h [ ]

pub IsTalking-IsConversation : (sent : List ServerFrame) → IsTalking sent → IsConversation sent
IsTalking-IsConversation (attached_frame _ ∷ frames) h = OnlyOutput-IsClosing frames h
IsTalking-IsConversation [] h = tt
IsTalking-IsConversation (stdout_frame _ ∷ frames) h = elim h [ ]
IsTalking-IsConversation (exited_frame _ ∷ frames) h = elim h [ ]
IsTalking-IsConversation (error_frame _ _ ∷ frames) h = elim h [ ]

pub IsTalking-last :
    (sent : List ServerFrame) (f : ServerFrame)
    → IsTalking sent
    → IsLast f
    → IsConversation (sent ++ f ∷ [])
IsTalking-last (attached_frame _ ∷ frames) f h k = OnlyOutput-last frames f h k
IsTalking-last [] f h k = elim h [ ]
IsTalking-last (stdout_frame _ ∷ frames) f h k = elim h [ ]
IsTalking-last (exited_frame _ ∷ frames) f h k = elim h [ ]
IsTalking-last (error_frame _ _ ∷ frames) f h k = elim h [ ]

pub IsTalking-more :
    (sent : List ServerFrame) (bytes : List ℕ)
    → IsTalking sent
    → IsTalking (sent ++ stdout_frame bytes ∷ [])
IsTalking-more (attached_frame _ ∷ frames) bytes h = OnlyOutput-more frames bytes h
IsTalking-more [] bytes h = elim h [ ]
IsTalking-more (stdout_frame _ ∷ frames) bytes h = elim h [ ]
IsTalking-more (exited_frame _ ∷ frames) bytes h = elim h [ ]
IsTalking-more (error_frame _ _ ∷ frames) bytes h = elim h [ ]
